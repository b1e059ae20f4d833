-- ===== src/Keys/Signature.antt =====
-- The size of signatures (src/sia.c).
use app_sia_x.Base.{ℕ, ◌≡◌, arith, Bytes, length, length-take, take}
use app_sia_x.Keys.{KeySdk, IsKeySdk, derive_sia_keypair, derive_and_sign}

module _ {K : Type 0} (keys : KeySdk K) (signs : IsKeySdk keys) where
  -- A signature is as long as the response that holds it.
  pub length-derive_and_sign :
      (index : ℕ) (hash : Bytes) → length hash ≡ 32 → length (derive_and_sign keys index hash) ≡ 64
  unfolding derive_and_sign
  length-derive_and_sign index hash e =
      signs.signature_size (derive_sia_keypair keys index).0 (take 32 hash)
        (omega (arith, length-take {0} 32 hash))
