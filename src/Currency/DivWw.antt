-- ===== src/Currency/DivWw.antt =====
-- `divWW10` (src/txn.c): the two-word by one-word division by ten, as in Go's math/big, with the
-- divisor normalised to 10 << 60.
use app_sia_x.Base.{
  ℕ, zero, suc, ◌+◌, ◌-◌, ◌*◌, ◌/◌, ◌%◌, ◌^◌, ◌<◌, ◌≡◌, refl, arith, u64, leb, if◌then◌else◌,
  bit_and, bit_or, bit_or_fields, bit_and_mask,
}

abbrev pub norm : ℕ
norm = 11529215046068469760

abbrev pub norm_hi : ℕ
norm_hi = 2684354560

abbrev pub half_word : ℕ
half_word = 4294967296

-- `while (q >= _B2) { q--; rhat += vn1; if (rhat >= _B2) break; }`. Only `q` is read afterwards.
unfoldable pub adjust : ℕ → ℕ → ℕ
adjust zero rhat = zero
adjust (suc q) rhat =
    let rhat' = u64 (rhat + norm_hi) in
    let rest = adjust q rhat' in
    if leb half_word (suc q) then (if leb half_word rhat' then q else rest) else suc q

-- The quotient and the remainder. Each product, sum and difference is taken in `uint64_t`.
unfoldable pub div_ww10 : ℕ → ℕ → ℕ × ℕ
div_ww10 u1 u0 =
    let un32 = bit_or (u64 (u1 * 2 ^ 60)) (u0 / 2 ^ 4) in
    let un10 = u64 (u0 * 2 ^ 60) in
    let un1 = un10 / 2 ^ 32 in
    let un0 = bit_and un10 (half_word - 1) in
    let q1 = adjust (un32 / norm_hi) (u64 (un32 + 2 ^ 64 - u64 (un32 / norm_hi * norm_hi))) in
    let un21 = u64 (un32 * half_word + un1 + 2 ^ 64 - u64 (q1 * norm)) in
    let q0 = adjust (un21 / norm_hi) (u64 (un21 + 2 ^ 64 - u64 (un21 / norm_hi * norm_hi))) in
    (u64 (q1 * half_word + q0), u64 (un21 * half_word + un0 + 2 ^ 64 - u64 (q0 * norm)) / 2 ^ 60)

-- A quotient digit that fits a half word is kept.
adjust-eq_self : (q rhat : ℕ) → q < half_word → adjust q rhat ≡ q
unfolding adjust
adjust-eq_self zero rhat h = refl
adjust-eq_self (suc q) rhat h = ground arith

shifted :
    (u1 u0 : ℕ)
    → u1 < 10
    → u0 < 2 ^ 64
    → bit_or (u64 (u1 * 2 ^ 60)) (u0 / 2 ^ 4) ≡ u1 * 2 ^ 60 + u0 / 2 ^ 4
shifted u1 u0 h1 h0 =
    let wide : u64 (u1 * 2 ^ 60) ≡ u1 * 2 ^ 60 = omega arith in
    rw wide (bit_or_fields 60 u1 (u0 / 2 ^ 4) (omega arith))

-- One digit of the quotient in base 2 ^ 32: the estimate is exact and nothing wraps around.
module _ (n low : ℕ) (fits : n < norm) (low_fits : low < half_word) where
  digit : (rhat : ℕ) → adjust (n / norm_hi) rhat ≡ n / norm_hi
  digit rhat = adjust-eq_self (n / norm_hi) rhat (omega arith)

  remainder :
      u64 (n * half_word + low + 2 ^ 64 - u64 (n / norm_hi * norm)) ≡ n % norm_hi * half_word + low
  remainder = omega arith

-- Both steps with their estimates exact: the quotient is two digits in base 2 ^ 32.
div_ww10_closed :
    (u1 u0 : ℕ)
    → u1 < 10
    → u0 < 2 ^ 64
    → let n = u1 * 2 ^ 60 + u0 / 2 ^ 4 in
      let m = n % norm_hi * half_word + u64 (u0 * 2 ^ 60) / 2 ^ 32 in
      div_ww10 u1 u0 ≡ (
        u64 (n / norm_hi * half_word + m / norm_hi),
        (m % norm_hi * half_word + u64 (u0 * 2 ^ 60) % 2 ^ 32) / 2 ^ 60,
      )
unfolding div_ww10
div_ww10_closed u1 u0 h1 h0 =
    let n = u1 * 2 ^ 60 + u0 / 2 ^ 4 in
    let un1 = u64 (u0 * 2 ^ 60) / 2 ^ 32 in
    let un0 = u64 (u0 * 2 ^ 60) % 2 ^ 32 in
    let m = n % norm_hi * half_word + un1 in
    let n_fits : n < norm = omega arith in
    let un1_fits : un1 < half_word = omega arith in
    let un0_fits : un0 < half_word = omega arith in
    let m_fits : m < norm = omega arith in
    rw (
      shifted u1 u0 h1 h0,
      digit n un1 n_fits un1_fits _,
      remainder n un1 n_fits un1_fits,
      digit m un0 m_fits un0_fits _,
      bit_and_mask 32 (u64 (u0 * 2 ^ 60)),
      remainder m un0 m_fits un0_fits,
    )

-- `divWW10` divides: for a high word below ten and a 64-bit low word, the quotient and the
-- remainder are those of the two-word number, and the quotient fits one word.
pub div_ww10_lem :
    (u1 u0 : ℕ)
    → u1 < 10
    → u0 < 2 ^ 64
    → let (q, r) = div_ww10 u1 u0 in (q * 10 + r ≡ u1 * 2 ^ 64 + u0) × (r < 10) × (q < 2 ^ 64)
div_ww10_lem u1 u0 h1 h0 = rw (div_ww10_closed u1 u0 h1 h0) (omega arith)
