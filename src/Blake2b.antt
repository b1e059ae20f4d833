-- ===== src/Blake2b.antt =====
-- src/blake2b.c, over the SDK's hash functions.
use app_sia_x.Base.{ℕ, true, false, [], Bytes, take}
use app_sia_x.Sdk.{Sdk}

module _ {C : Type 0} (sdk : Sdk C) where
  unfoldable pub blake2b_init : C
  blake2b_init = sdk.cx_blake2b_init 256

  unfoldable pub blake2b_update : C → Bytes → C
  blake2b_update s bin = (sdk.cx_hash s false bin).0

  -- The context as it is left, and the bytes that `memmove(out, buf, outlen)` stores.
  unfoldable pub blake2b_final : C → ℕ → C × Bytes
  blake2b_final s outlen = let (s', buf) = sdk.cx_hash s true [] in (s', take outlen buf)

  unfoldable pub blake2b : ℕ → Bytes → Bytes
  unfolding blake2b_init blake2b_update blake2b_final
  blake2b outlen bin = (blake2b_final (blake2b_update blake2b_init bin) outlen).1
