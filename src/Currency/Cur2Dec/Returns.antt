-- ===== src/Currency/Cur2Dec/Returns.antt =====
-- `cur2dec` (src/txn.c) returns or throws an error.
use app_sia_x.Base.{
  ℕ, zero, suc, ◌+◌, inl, inr, List, [], ◌∷◌, Bytes, ◌==◌, ltb, Bool-cases, Result, throw, byte_at,
  u8, stuck, ok,
}
use app_sia_x.Sdk.{Sdk}
use app_sia_x.Codes.{TxnDecoderState, IsFailure}
use app_sia_x.Currency.Limbs.{quorem10, normalize}
use app_sia_x.Currency.Cur2Dec.{decode_digits, copy_out, cur2dec}

abbrev pub Returns : {A : Type 0} → Result TxnDecoderState A → Type 0
Returns (ok a) = Unit {0}
Returns (throw e) = IsFailure e
Returns stuck = ⊥

decode_digits-Returns : (i : ℕ) (nat : List ℕ) (buf : Bytes) → Returns (decode_digits i nat buf)
unfolding decode_digits
decode_digits-Returns i [] buf = tt
decode_digits-Returns zero (x ∷ nat) buf = tt
decode_digits-Returns (suc i) (x ∷ nat) buf =
    let (nat', r) = quorem10 (x ∷ nat) in
    decode_digits-Returns i (normalize nat') (u8 (b'0' + r) ∷ buf)

copy_out-Returns :
    (out : Bytes) (r : Result TxnDecoderState Bytes) → Returns r → Returns (copy_out out r)
copy_out-Returns out (ok text) h = tt
copy_out-Returns out (throw x) h = h
copy_out-Returns out stuck h = h

-- `cur2dec` returns or throws an error.
pub cur2dec-Returns : {C : Type 0} (sdk : Sdk C) (out cur : Bytes) → Returns (cur2dec sdk out cur)
unfolding cur2dec
cur2dec-Returns sdk out cur = elim (Bool-cases (byte_at cur 0 == 0)) [
  | inl e ↦ rw e tt
  | inr e ↦ elim (Bool-cases (ltb 18 (byte_at cur 0))) [
    | inl f ↦ rw (e, f) tt
    | inr f ↦ rw (e, f) (copy_out-Returns out _ (decode_digits-Returns 63 _ (0 ∷ [])))
  ]
]
