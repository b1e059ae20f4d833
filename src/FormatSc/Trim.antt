-- ===== src/FormatSc/Trim.antt =====
-- The trimming loop of `formatSC` (src/sia.c).
use app_sia_x.Base.{
  ℕ, zero, suc, ◌+◌, ◌-◌, ◌*◌, ◌^◌, ◌≤◌, ◌<◌, ◌≡◌, ◌≢◌, ◌⊎◌, inl, inr, refl, arith, ap, ◌∙◌, sym,
  true, false, Bool-cases, ◌==◌, [], ◌∷◌, ◌++◌, Bytes, length, take, byte_at,
}
use native.Mathlib.Nat.{pow-suc}
use mathlib.Core.Path.{subst}
use app_sia_x.Decimal.{dec_from}
use app_sia_x.FormatSc.{trim_zeros}

pub byte_at-append_back :
    (xs ys : Bytes) (k : ℕ) → byte_at (xs ++ ys) (length xs + k) ≡ byte_at ys k
byte_at-append_back [] ys k = let e : 0 + k ≡ k = omega arith in ap (byte_at ys) e
byte_at-append_back (x ∷ xs) ys k =
    let e : suc (length xs) + k ≡ suc (length xs + k) = omega arith in
    ap (byte_at (x ∷ (xs ++ ys))) e ∙ byte_at-append_back xs ys k

pub byte_at-append_front :
    (xs ys : Bytes) (k : ℕ) → k < length xs → byte_at (xs ++ ys) k ≡ byte_at xs k
byte_at-append_front [] ys k h = absurd (omega arith)
byte_at-append_front (x ∷ xs) ys zero h = refl
byte_at-append_front (x ∷ xs) ys (suc k) h = byte_at-append_front xs ys k (omega arith)

-- One more digit of a text.
dec_from-take-suc :
    (n c : ℕ) (f : Bytes)
    → n < length f
    → dec_from c (take (suc n) f) ≡ dec_from c (take n f) * 10 + (byte_at f n - b'0')
dec_from-take-suc n c [] h = absurd (omega arith)
dec_from-take-suc zero c (x ∷ f) h = refl
dec_from-take-suc (suc n) c (x ∷ f) h = dec_from-take-suc n (c * 10 + (x - b'0')) f (omega arith)

-- The loop stands at the point, or at a digit behind it that is not zero; what it passes over is
-- zeros.
pub record Trimmed (i n c : ℕ) (f : Bytes) (stop : ℕ) : Type 0 where
  pub left : ℕ
  pub stops : stop ≡ i + left
  pub short : left ≤ n
  pub value : dec_from c (take n f) ≡ dec_from c (take left f) * 10 ^ (n - left)
  pub last_digit : (left ≡ 0) ⊎ ((0 < left) × (byte_at f (left - 1) ≢ b'0'))

times_ten :
    (n left v x : ℕ)
    → left ≤ n
    → x ≡ v * 10 ^ (n - left)
    → x * 10 + (48 - 48) ≡ v * 10 ^ (suc n - left)
times_ten n left v x h e =
    let k : suc n - left ≡ suc (n - left) = omega arith in
    rw k (omega (arith, ap (λ t. v * t) (pow-suc 10 (n - left))))

whole_value : (n v : ℕ) → v ≡ v * 10 ^ (suc n - suc n)
whole_value n v = let k : suc n - suc n ≡ 0 = omega arith in rw k (omega arith)

before_last : (n : ℕ) → n ≡ suc n - 1
before_last n = omega arith

module _ (buf f : Bytes) (i c : ℕ)
    (behind : (m : ℕ) → m < length f → byte_at buf (suc (i + m)) ≡ byte_at f m)
    (point : byte_at buf i ≡ b'.') (pos : 0 < i) where
  at_point : (j : ℕ) → j ≡ i → trim_zeros buf j ≡ j
  unfolding trim_zeros
  at_point zero e = refl
  at_point (suc j) e =
      let here : (byte_at buf (suc j) == b'0') ≡ false = ground (arith, ap (byte_at buf) e) in
      rw here

  at_start : trim_zeros buf (i + 0) ≡ i + 0
  at_start = at_point (i + 0) (omega arith)

  over_zero :
      (n : ℕ)
      → n < length f
      → byte_at f n ≡ b'0'
      → trim_zeros buf (i + suc n) ≡ trim_zeros buf (i + n)
  unfolding trim_zeros
  over_zero n h z =
      let e : i + suc n ≡ suc (i + n) = omega arith in
      let here : (byte_at buf (suc (i + n)) == b'0') ≡ true = ground (arith, behind n h) in
      ap (trim_zeros buf) e ∙ rw here refl

  at_digit : (n : ℕ) → n < length f → byte_at f n ≢ b'0' → trim_zeros buf (i + suc n) ≡ i + suc n
  unfolding trim_zeros
  at_digit n h z =
      let e : i + suc n ≡ suc (i + n) = omega arith in
      let here : (byte_at buf (suc (i + n)) == b'0') ≡ false = ground (arith, behind n h) in
      ap (trim_zeros buf) e ∙ rw here (sym e)

  pub trim_zeros_lem : (n : ℕ) → n ≤ length f → Trimmed i n c f (trim_zeros buf (i + n))
  trim_zeros_lem zero h = record {
    left = zero;
    stops = at_start;
    short = omega arith;
    value = omega arith;
    last_digit = inl refl;
  }
  trim_zeros_lem (suc n) h = elim (Bool-cases (byte_at f n == b'0')) [
    | inl e ↦
        let z : byte_at f n ≡ b'0' = ground arith in
        let before = trim_zeros_lem n (omega arith) in
        record {
          left = before.left;
          stops = over_zero n (omega arith) z ∙ before.stops;
          short = omega (arith, before.short);
          value =
              dec_from-take-suc n c f (omega arith)
              ∙ ap (λ x. dec_from c (take n f) * 10 + (x - b'0')) z
              ∙ times_ten n before.left (dec_from c (take before.left f)) (dec_from c (take n f))
                  before.short before.value;
          last_digit = before.last_digit;
        }
    | inr e ↦
        let z : byte_at f n ≢ b'0' = ground arith in
        record {
          left = suc n;
          stops = at_digit n (omega arith) z;
          short = omega arith;
          value = whole_value n (dec_from c (take (suc n) f));
          last_digit = inr (omega arith, subst (λ k. byte_at f k ≢ b'0') (before_last n) z);
        }
  ]
