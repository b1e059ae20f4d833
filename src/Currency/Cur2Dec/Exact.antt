-- ===== src/Currency/Cur2Dec/Exact.antt =====
-- What `cur2dec` computes: the decimal numeral of the big-endian value, for every size allowed.
use app_sia_x.Base.{
  ℕ, zero, suc, ◌+◌, ◌-◌, ◌*◌, ◌^◌, ◌≤◌, ◌<◌, ◌≡◌, ◌≢◌, inr, ◌∙◌, ap, refl, arith, List, [], ◌∷◌,
  ◌++◌, Bytes, ◌==◌, false, drop, take, take_add, drop-drop, length-drop, write, length, replicate,
  length-append, ok, All, All-split, All-append, IsByte, be_from, be_from-append, be_from-zeros,
  be_value, le→ltb, take-append_self, length-replicate, append_assoc, sym,
}
use native.Mathlib.Nat.{pow-suc, pow-le-pow_right, mul-le-mul_right, lt_of_lt_of_le}
use app_sia_x.Sdk.{Sdk, IsSdk}
use app_sia_x.Codes.{u8_be, u8_be_reads, be_from_limb, be_value-lt_limb}
use app_sia_x.Decimal.{IsDecimal}
use app_sia_x.Currency.Limbs.{IsLimb, limbs_value}
use app_sia_x.Currency.Cur2Dec.{load_limbs, limb_count, cur2dec}
use app_sia_x.Currency.Cur2Dec.Digits.{decode_digits_lem}

next_window : (i : ℕ) (cur : Bytes) → drop 8 (drop (i * 8) cur) ≡ drop ((i + 1) * 8) cur
next_window i cur = drop-drop 8 (i * 8) cur ∙ ap (λ n. drop n cur) (omega arith)

module _ {C : Type 0} (sdk : Sdk C) (laws : IsSdk sdk) where
  -- Loading the limbs keeps the big-endian value.
  pub load_limbs_lem :
      (left i : ℕ) (cur : Bytes) (nat : List ℕ)
      → i * 8 + left * 8 ≤ length cur
      → All IsByte (take (left * 8) (drop (i * 8) cur))
      → All IsLimb nat
      → let loaded = load_limbs sdk left i cur nat in
        (limbs_value loaded ≡ be_from (limbs_value nat) (take (left * 8) (drop (i * 8) cur)))
        × All IsLimb loaded
  unfolding load_limbs
  load_limbs_lem zero i cur nat fits bytes limbs = (refl, limbs)
  load_limbs_lem (suc left) i cur nat fits bytes limbs =
      let w = drop (i * 8) cur in
      let e : take (suc left * 8) w ≡ take 8 w ++ take (left * 8) (drop 8 w) =
        ap (λ n. take n w) (omega arith) ∙ take_add 8 (left * 8) w in
      let (front, back) =
        All-split IsByte (take 8 w) (take (left * 8) (drop 8 w)) (rw e at bytes) in
      let e8 : u8_be sdk cur (i * 8) ≡ be_value (take 8 w) =
        u8_be_reads sdk laws cur (i * 8) (omega arith) front in
      let long : 8 ≤ length w = omega (arith, length-drop {0} (i * 8) cur) in
      let limb : IsLimb (u8_be sdk cur (i * 8)) = rw e8 (be_value-lt_limb w long front) in
      let (value, loaded) =
        load_limbs_lem left (i + 1) cur (u8_be sdk cur (i * 8) ∷ nat) (omega arith)
          (rw (← next_window i cur) back) (limb, limbs) in
      (
        value
            ∙ ap (λ s. be_from (limbs_value (u8_be sdk cur (i * 8) ∷ nat)) (take (left * 8) s))
                (sym (next_window i cur))
            ∙ ap (λ n. be_from n (take (left * 8) (drop 8 w)))
                (omega (arith, e8, be_from_limb w long front (limbs_value nat)))
            ∙ sym (be_from-append (limbs_value nat) (take 8 w) (take (left * 8) (drop 8 w)))
            ∙ ap (be_from (limbs_value nat)) (sym e),
        loaded,
      )

-- Skipping into the length prefix leaves as many of its zero bytes as the first limb needs.
drop_prefix :
    (m n : ℕ) (t : Bytes) → m ≤ 7 → drop (8 - m) (n ∷ replicate 7 0 ++ t) ≡ replicate m 0 ++ t
drop_prefix zero n t h = refl
drop_prefix (suc zero) n t h = refl
drop_prefix (suc (suc zero)) n t h = refl
drop_prefix (suc (suc (suc zero))) n t h = refl
drop_prefix (suc (suc (suc (suc zero)))) n t h = refl
drop_prefix (suc (suc (suc (suc (suc zero))))) n t h = refl
drop_prefix (suc (suc (suc (suc (suc (suc zero)))))) n t h = refl
drop_prefix (suc (suc (suc (suc (suc (suc (suc zero))))))) n t h = refl
drop_prefix (suc (suc (suc (suc (suc (suc (suc (suc m)))))))) n t h = absurd (omega arith)

zeros-IsByte : (n : ℕ) → All IsByte (replicate n 0)
zeros-IsByte zero = tt
zeros-IsByte (suc n) = (omega arith, zeros-IsByte n)

abbrev padding : ℕ → ℕ
padding n = limb_count n * 8 - n

limb_count_lem : (n : ℕ) → (padding n ≤ 7) × (limb_count n * 8 ≡ padding n + n)
limb_count_lem n = ground arith

module _ {C : Type 0} (sdk : Sdk C) (laws : IsSdk sdk) (v rest : Bytes) (bytes : All IsByte v) where
  abbrev encoded : Bytes
  encoded = length v ∷ replicate 7 0 ++ v ++ rest

  abbrev padded : Bytes
  padded = replicate (padding (length v)) 0 ++ v

  abbrev limbs : List ℕ
  limbs = load_limbs sdk (limb_count (length v)) 0 (drop (8 - padding (length v)) encoded) []

  window : drop (8 - padding (length v)) encoded ≡ padded ++ rest
  window =
      drop_prefix (padding (length v)) (length v) (v ++ rest) (limb_count_lem (length v)).0
      ∙ sym (append_assoc (replicate (padding (length v)) 0) v rest)

  length-padded : length padded ≡ limb_count (length v) * 8
  length-padded = omega (
    arith,
    length-append {0} (replicate (padding (length v)) 0) v,
    length-replicate {A = ℕ} (padding (length v)) 0,
    limb_count_lem (length v),
  )

  loaded_window : take (limb_count (length v) * 8) (padded ++ rest) ≡ padded
  loaded_window =
      ap (λ n. take n (padded ++ rest)) (sym length-padded) ∙ take-append_self padded rest

  limbs_lem : (limbs_value limbs ≡ be_value v) × All IsLimb limbs
  limbs_lem =
      let (value, fits) =
        load_limbs_lem sdk laws (limb_count (length v)) 0 (padded ++ rest) []
          (omega (arith, length-append {0} padded rest, length-padded))
          (rw loaded_window (
            All-append IsByte (replicate (padding (length v)) 0) v
              (zeros-IsByte (padding (length v))) bytes))
          tt in
      rw window (value ∙ ap (be_from 0) loaded_window ∙ be_from-zeros (padding (length v)) v, fits)

  length-load_limbs :
      (left i : ℕ) (cur : Bytes) (nat : List ℕ)
      → length (load_limbs sdk left i cur nat) ≡ left + length nat
  unfolding load_limbs
  length-load_limbs zero i cur nat = omega arith
  length-load_limbs (suc left) i cur nat =
      omega (arith, length-load_limbs left (i + 1) cur (u8_be sdk cur (i * 8) ∷ nat))

  limbs-ne-nil : 1 ≤ length v → limbs ≢ []
  limbs-ne-nil pos e = omega (
    arith,
    length-load_limbs (limb_count (length v)) 0 (drop (8 - padding (length v)) encoded) [],
    ap (length {A = ℕ}) e,
    limb_count_lem (length v),
  )

be_from-lt : (acc : ℕ) (bs : Bytes) → All IsByte bs → be_from acc bs < (acc + 1) * 256 ^ length bs
be_from-lt acc [] h = omega arith
be_from-lt acc (b ∷ bs) (hb, h) =
    lt_of_lt_of_le (be_from-lt (acc * 256 + b) bs h)
      (rw (pow-suc 256 (length bs)) (omega (arith, mul-le-mul_right (256 ^ length bs) step)))
  where
    step : acc * 256 + b + 1 ≤ (acc + 1) * 256
    step = omega arith

-- A number of at most 18 bytes.
be_value-lt_decimal : (v : Bytes) → All IsByte v → length v ≤ 18 → be_value v < 10 ^ 44
be_value-lt_decimal v bytes h =
    let power : 256 ^ length v ≤ 256 ^ 18 = pow-le-pow_right {n = 256} (omega arith) h in
    omega (arith, be_from-lt 0 v bytes)

module _ {C : Type 0} (sdk : Sdk C) (laws : IsSdk sdk) where
  -- If the SDK reads words as documented, a value of 1 to 18 bytes, behind its 8-byte length
  -- prefix, comes out as the decimal numeral of the big-endian number, which has at most 44 digits,
  -- with a NUL byte behind it.
  pub cur2dec_exact :
      (out v rest : Bytes)
      → 1 ≤ length v
      → length v ≤ 18
      → All IsByte v
      → (s : Bytes) × (cur2dec sdk out (length v ∷ replicate 7 0 ++ v ++ rest)
          ≡ ok (write out 0 (s ++ 0 ∷ []), length s))
        × IsDecimal (be_value v) s
        × (length s ≤ 44)
  unfolding cur2dec
  cur2dec_exact out v rest pos small bytes =
      let (value, fits) = limbs_lem sdk laws v rest bytes in
      let bound = be_value-lt_decimal v bytes small in
      let spelled =
        decode_digits_lem 63 44 (limbs sdk laws v rest bytes) (0 ∷ []) (omega arith) fits
          (inr (omega arith)) (rw value bound) in
      let positive : (length v == 0) ≡ false = ground arith in
      (
        spelled.text,
        rw (positive, le→ltb 18 (length v) small, spelled.returns)
            (ap (λ n. ok (write out 0 (spelled.text ++ 0 ∷ []), n))
              (omega (arith, length-append {0} spelled.text (0 ∷ [])))),
        record {
          digits = spelled.digits;
          value = spelled.value ∙ value;
          some_digit = spelled.some_digit (limbs-ne-nil sdk laws v rest bytes pos);
          canonical = spelled.canonical;
        },
        spelled.short,
      )
