-- ===== src/Txn/Encoding/Stage.antt =====
-- Where the decoder (src/txn.c) stands in the encoding of a transaction that comes packet by packet.
use app_sia_x.Base.{
  ℕ, ◌+◌, ◌^◌, ◌≤◌, ◌<◌, ◌≡◌, ◌≢◌, arith, false, List, [], ◌∷◌, ◌++◌, Bytes, length, length-append,
  u16, Result, ok, throw, stuck,
}
use app_sia_x.Sdk.{Sdk}
use app_sia_x.Codes.{TxnDecoderState, err, ready, partial, finished}
use app_sia_x.Blake2b.{blake2b, blake2b_init, blake2b_update}
use app_sia_x.Txn.State.{
  ElemType, sc_output, sf_output, miner_fee, txn_sig, bump, is_txn_sig, TxnState,
}
use app_sia_x.Txn.Advance.{IsValid, pending}
use app_sia_x.Txn.Encoding.{
  u64_bytes, Elem, Display, payment, payment_of_fee, displays, encode_elem, IsElem, covered_prefix,
  covered_elem,
}
use app_sia_x.Txn.Encoding.Words.{length-le_bytes}
use app_sia_x.Txn.Encoding.Shown.{Screen, screen_of, Amount, Address, FeeLabel, IsSized}

-- What is left of a transaction at element `i` of `n`: the bytes, those of them that are covered, the
-- length of the part that is next, and what is still to be approved.
pub data Remains (sig_index : ℕ)
    : ElemType → ℕ → ℕ → Bytes → Bytes → ℕ → List Display → Type 0 where
  at_end : {n : ℕ} → Remains sig_index txn_sig n n [] [] 0 []
  at_slice :
      {e : ElemType} {n head : ℕ} {bs cs : Bytes} {ds : List Display} (len : ℕ)
      → len < 2 ^ 64
      → is_txn_sig e ≡ false
      → (bump e ≡ txn_sig → sig_index < len)
      → Remains sig_index (bump e) len 0 bs cs head ds
      → Remains sig_index e n n
          (u64_bytes len ++ bs)
          (covered_prefix (bump e) (u64_bytes len) ++ cs)
          8
          ds
  at_elem :
      {e : ElemType} {n i head : ℕ} {bs cs : Bytes} {ds : List Display} (x : Elem e)
      → i ≢ n
      → IsElem x
      → Remains sig_index e n (u16 (i + 1)) bs cs head ds
      → Remains sig_index e n i
          (encode_elem x ++ bs)
          (covered_elem sig_index e i (encode_elem x) ++ cs)
          (length (encode_elem x))
          (displays x ++ ds)

pub Remains-small :
    {sig_index : ℕ} {e : ElemType} {n i head : ℕ} {bs cs : Bytes} {ds : List Display}
    → Remains sig_index e n i bs cs head ds
    → head ≤ 255
Remains-small at_end = omega arith
Remains-small (at_slice len range other signed rest) = omega arith
Remains-small (at_elem x ne is rest) = is.short

-- The types whose elements are shown.
abbrev pub IsShown : ElemType → Type 0
IsShown sc_output = Unit
IsShown sf_output = Unit
IsShown miner_fee = Unit
IsShown _ = ⊥

module _ {C : Type 0} (sdk : Sdk C) where
  -- What the screen says.
  abbrev pub Shows : Display → Screen → Type 0
  Shows (payment value unlock_hash) s = Amount value s × Address sdk unlock_hash s
  Shows (payment_of_fee value) s = Amount value s × FeeLabel s

  -- The state of the decoder there. `all` is everything that is covered.
  pub record Stage (sig_index : ℕ) (all future : Bytes) (e : ElemType) (n i : ℕ) (bs cs : Bytes)
      (t : TxnState C) : Type 0 where
    pub same_elem_type : t.elem_type ≡ e
    pub same_slice_len : t.slice_len ≡ n
    pub same_slice_index : t.slice_index ≡ i
    pub same_sig_index : t.sig_index ≡ sig_index
    pub valid : IsValid t
    pub at_front : t.pos ≡ 0
    pub stream : pending t ++ future ≡ bs
    pub hashed : Bytes
    pub blake : t.blake ≡ blake2b_update sdk (blake2b_init sdk) hashed
    pub covered_all : hashed ++ cs ≡ all
    pub hash_size : length t.sig_hash ≡ 32
    pub sized : IsSized (screen_of t)

  module _ (sig_index : ℕ) (all future : Bytes) where
    -- With room for a packet of 255 bytes behind the part that is next.
    pub data Stands (ds : List Display) (bound : ℕ) (t : TxnState C) : Type 0 where
      stands :
          {e : ElemType} {n i head : ℕ} {bs cs : Bytes}
          → Remains sig_index e n i bs cs head ds
          → Stage sig_index all future e n i bs cs t
          → t.buflen < 255 + head
          → t.buflen ≤ bound
          → Stands ds bound t

    -- The part that is next is not there whole.
    pub data Waits (ds : List Display) (bound : ℕ) (t : TxnState C) : Type 0 where
      waits :
          {e : ElemType} {n i head : ℕ} {bs cs : Bytes}
          → Remains sig_index e n i bs cs head ds
          → Stage sig_index all future e n i bs cs (record t { pos = 0 })
          → t.buflen < head
          → t.buflen ≤ bound
          → Waits ds bound t

    -- An element to be approved has been read.
    pub record Presents (ds : List Display) (bound : ℕ) (t : TxnState C) : Type 0 where
      pub first : Display
      pub others : List Display
      pub order : ds ≡ first ∷ others
      pub shows : Shows first (screen_of t)
      pub then : Stands others (t.buflen) t
      pub taken : t.buflen < bound
      pub free : t.buflen < 255
      pub kind : IsShown t.elem_type

    -- What a call of the decoder makes of it.
    abbrev pub Outcome : List Display → ℕ → Result TxnDecoderState (Unit {0}) × TxnState C → Type 0
    Outcome ds bound (ok _, t) = Stands ds bound t
    Outcome ds bound (throw ready, t) = Presents ds bound t
    Outcome ds bound (throw partial, t) = Waits ds bound t
    Outcome ds bound (throw finished, t) =
        (ds ≡ []) × (t.sig_hash ≡ blake2b sdk 32 all) × (t.buflen < 255)
    Outcome ds bound (throw err, t) = ⊥
    Outcome ds bound (stuck, t) = Unit {0}

-- The part that is next is at the front.
pub Remains-front :
    {sig_index : ℕ} {e : ElemType} {n i head : ℕ} {bs cs : Bytes} {ds : List Display}
    → Remains sig_index e n i bs cs head ds
    → head ≤ length bs
Remains-front at_end = omega arith
Remains-front (at_slice {bs} len range other signed rest) =
    omega (arith, length-append (u64_bytes len) bs, length-le_bytes 8 len)
Remains-front (at_elem {bs} x ne is rest) = omega (arith, length-append (encode_elem x) bs)
