-- ===== src/Currency/Cur2Dec/Digits.antt =====
-- The digit loop of `cur2dec` (src/txn.c) spells the value of the limbs.
use app_sia_x.Base.{
  ℕ, zero, suc, ◌+◌, ◌^◌, ◌≤◌, ◌<◌, ◌≡◌, ◌≢◌, ◌⊎◌, inl, inr, ◌∙◌, ap, refl, arith, List, [], ◌∷◌,
  ◌++◌, Bytes, u8, length, length-append, ok, All, All-append, append_assoc, sym,
}
use native.Mathlib.Nat.{pow-suc}
use app_sia_x.Decimal.{IsDigit, dec_value, dec_from-append, NoLeadingZero}
use app_sia_x.Currency.Limbs.{
  quorem10, normalize, IsLimb, limbs_value, IsNormal, quorem10_lem, normalize_lem,
}
use app_sia_x.Currency.Cur2Dec.{decode_digits}

-- What the digit loop puts in front of `buf`.
pub record Spelled (i k : ℕ) (nat : List ℕ) (buf : Bytes) : Type 0 where
  pub text : Bytes
  pub returns : decode_digits i nat buf ≡ ok (text ++ buf)
  pub digits : All IsDigit text
  pub value : dec_value text ≡ limbs_value nat
  pub canonical : NoLeadingZero text ⊎ (text ≡ b'0' ∷ [])
  pub short : length text ≤ k
  pub some_digit : nat ≢ [] → text ≢ []
  pub no_digit : nat ≡ [] → text ≡ []

-- A last digit behind a numeral that is not zero leaves no zero in front.
canonical_last :
    (s : Bytes) (nat : List ℕ) (c : ℕ)
    → NoLeadingZero s ⊎ (s ≡ b'0' ∷ [])
    → (nat ≡ [] → s ≡ [])
    → dec_value s ≡ limbs_value nat
    → IsNormal nat
    → NoLeadingZero (s ++ c ∷ []) ⊎ (s ++ c ∷ [] ≡ b'0' ∷ [])
canonical_last [] nat c h none v n = ground arith
canonical_last (d ∷ s) nat c (inl h) none v n = inl h
canonical_last (d ∷ s) nat c (inr e) none v (inl e') = absurd (cc (none e'))
canonical_last (d ∷ s) nat c (inr e) none v (inr p) = absurd (omega (arith, ap dec_value e))

append-ne-nil : (s : Bytes) (c : ℕ) → s ++ c ∷ [] ≢ []
append-ne-nil [] c h = cc
append-ne-nil (d ∷ s) c h = cc

-- The loop has room for every number below 10 ^ k in k bytes, and spells it.
pub decode_digits_lem :
    (i k : ℕ) (nat : List ℕ) (buf : Bytes)
    → k ≤ i
    → All IsLimb nat
    → IsNormal nat ⊎ (0 < k)
    → limbs_value nat < 10 ^ k
    → Spelled i k nat buf
unfolding decode_digits
decode_digits_lem i k [] buf room limbs normal h = record {
  text = [];
  returns = refl;
  digits = tt;
  value = refl;
  canonical = inl tt;
  short = omega arith;
  some_digit = λ e. e;
  no_digit = λ e. refl;
}
decode_digits_lem i zero (x ∷ nat) buf room limbs (inl (inl e)) h = absurd (cc)
decode_digits_lem i zero (x ∷ nat) buf room limbs (inl (inr p)) h = absurd (omega arith)
decode_digits_lem i zero (x ∷ nat) buf room limbs (inr p) h = absurd (omega arith)
decode_digits_lem zero (suc k) (x ∷ nat) buf room limbs normal h = absurd (omega arith)
decode_digits_lem (suc i) (suc k) (x ∷ nat) buf room limbs normal h =
    let nat' = (quorem10 (x ∷ nat)).0 in
    let r = (quorem10 (x ∷ nat)).1 in
    let (value, small, limbs') = quorem10_lem (x ∷ nat) limbs in
    let (value', limbs'', normal') = normalize_lem nat' limbs' in
    let c = u8 (b'0' + r) in
    let digit : c ≡ b'0' + r = omega arith in
    let rest =
      decode_digits_lem i k (normalize nat') (c ∷ buf) (omega arith) limbs'' (inl normal')
        (omega (arith, pow-suc 10 k)) in
    record {
      text = rest.text ++ c ∷ [];
      returns = rest.returns ∙ ap ok (sym (append_assoc rest.text (c ∷ []) buf));
      digits = All-append IsDigit rest.text (c ∷ []) rest.digits ((omega arith, omega arith), tt);
      value = dec_from-append 0 rest.text (c ∷ []) ∙ omega (arith, rest.value);
      canonical =
          canonical_last rest.text (normalize nat') c rest.canonical rest.no_digit (rest.value)
            normal';
      short = omega (arith, length-append {0} rest.text (c ∷ []), rest.short);
      some_digit = λ _. append-ne-nil rest.text c;
      no_digit = λ e. absurd (cc);
    }
