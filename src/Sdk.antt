-- ===== src/Sdk.antt =====
-- What the app calls of the Ledger SDK, which is not part of the repository: the byte-order macros
-- of os.h and the BLAKE2b functions of cx.h. They are parameters of the model, over a type `C` of
-- hash contexts (`cx_blake2b_t`); `IsSdk` states the documented behaviour that proofs rely on.
use app_sia_x.Base.{
  ℕ, ◌+◌, ◌≤◌, ◌≡◌, Bool, true, false, ◌++◌, Bytes, length, take, drop, [], be_value, le_value,
}

pub record Sdk (C : Type 0) : Type 0 where
  -- `U2LE`, `U4LE` and `U4BE`, at an offset
  pub u2_le : Bytes → ℕ → ℕ
  pub u4_le : Bytes → ℕ → ℕ
  pub u4_be : Bytes → ℕ → ℕ
  -- a context for a digest of this many bits
  pub cx_blake2b_init : ℕ → C
  -- the context after the input, and the digest if `CX_LAST` is set
  pub cx_hash : C → Bool → Bytes → C × Bytes

pub record IsSdk {C : Type 0} (sdk : Sdk C) : Type 0 where
  pub u4_le_reads :
      (buf : Bytes) (i : ℕ) → i + 4 ≤ length buf → sdk.u4_le buf i ≡ le_value (take 4 (drop i buf))
  pub u4_be_reads :
      (buf : Bytes) (i : ℕ) → i + 4 ≤ length buf → sdk.u4_be buf i ≡ be_value (take 4 (drop i buf))
  pub digest_size : (c : C) (bs : Bytes) → length (sdk.cx_hash c true bs).1 ≡ 32
  -- hashing in pieces is hashing the whole
  pub hash_pieces :
      (c : C) (xs ys : Bytes)
      → (sdk.cx_hash (sdk.cx_hash c false xs).0 false ys).0 ≡ (sdk.cx_hash c false (xs ++ ys)).0
  pub hash_nothing : (c : C) → (sdk.cx_hash c false []).0 ≡ c
