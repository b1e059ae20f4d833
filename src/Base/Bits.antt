-- ===== src/Base/Bits.antt =====
-- `|` of disjoint fields and `&` with a low mask, as arithmetic, from the digit recursion that the
-- native operations stand for.
use Prim.Native.Nat.{
  ℕ, zero, suc, ◌+◌, ◌-◌, ◌*◌, ◌/◌, ◌%◌, ◌^◌, ◌≤◌, ◌<◌, min, max, bit_and, bit_or, digits,
  bit_and-bitwise, bit_or-bitwise,
}
use mathlib.Core.Path.{◌≡◌, refl, ap, sym, ◌∙◌}
use native.Mathlib.Omega.{arith}
use native.Mathlib.Nat.{pow-suc, one-le-pow, div-one, div-div-eq-div-mul}

-- A native operation stands for the recursion on binary digits with a function `f` on digits.
module _ (z : ℕ → ℕ) (f op : ℕ → ℕ → ℕ) (law : (a b : ℕ) → op a b ≡ digits z f a a b) where
  -- Two amounts of fuel that reach the number's own size agree.
  same_digits : (b a k l : ℕ) → (a ≤ k) × (a ≤ l) → digits z f k a b ≡ digits z f l a b
  same_digits b zero zero zero h = refl
  same_digits b zero zero (suc l) h = refl
  same_digits b zero (suc k) zero h = refl
  same_digits b zero (suc k) (suc l) h = refl
  same_digits b (suc a) (suc k) (suc l) h =
      ap (λ d. d * 2 + f (suc a % 2) (b % 2)) (same_digits (b / 2) (suc a / 2) k l (omega arith))
  same_digits b (suc a) zero l h = absurd (omega arith)
  same_digits b (suc a) (suc k) zero h = absurd (omega arith)

  lowest_digit : (a b : ℕ) → 0 < a → op a b ≡ op (a / 2) (b / 2) * 2 + f (a % 2) (b % 2)
  lowest_digit zero b pos = absurd (omega arith)
  lowest_digit (suc a) b pos =
      rw (law (suc a) b, law (suc a / 2) (b / 2))
        (ap (λ d. d * 2 + f (suc a % 2) (b % 2))
          (same_digits (b / 2) (suc a / 2) a (suc a / 2) (omega arith)))

  -- With zero, every digit is taken by itself.
  against_zero :
      (g : ℕ → ℕ)
      → g 0 ≡ z 0
      → ((a : ℕ) → g a ≡ g (a / 2) * 2 + f (a % 2) 0)
      → (n a : ℕ) → a ≤ n
      → op a 0 ≡ g a
  against_zero g e h n zero le = rw e (law 0 0)
  against_zero g e h zero (suc a) le = absurd (omega arith)
  against_zero g e h (suc n) (suc a) le =
      lowest_digit (suc a) 0 (omega arith)
      ∙ ap (λ d. d * 2 + f (suc a % 2) 0) (against_zero g e h n (suc a / 2) (omega arith))
      ∙ sym (h (suc a))

bit_or-halves : (a b : ℕ) → bit_or a b ≡ bit_or (a / 2) (b / 2) * 2 + max (a % 2) (b % 2)
bit_or-halves zero b = omega (arith, bit_or-bitwise 0 b, bit_or-bitwise 0 (b / 2))
bit_or-halves (suc a) b = lowest_digit (λ y. y) max bit_or bit_or-bitwise (suc a) b (omega arith)

bit_and-halves : (a b : ℕ) → bit_and a b ≡ bit_and (a / 2) (b / 2) * 2 + min (a % 2) (b % 2)
bit_and-halves zero b = omega (arith, bit_and-bitwise 0 b, bit_and-bitwise 0 (b / 2))
bit_and-halves (suc a) b = lowest_digit (λ _. 0) min bit_and bit_and-bitwise (suc a) b (omega arith)

bit_or-zero : (a : ℕ) → bit_or a 0 ≡ a
bit_or-zero a =
    against_zero (λ y. y) max bit_or bit_or-bitwise (λ x. x) refl (λ x. omega arith) a a
      (omega arith)

bit_and-zero : (a : ℕ) → bit_and a 0 ≡ 0
bit_and-zero a =
    against_zero (λ _. 0) min bit_and bit_and-bitwise (λ _. 0) refl (λ x. omega arith) a a
      (omega arith)

mul-two_pow_suc : (q k : ℕ) → q * 2 ^ suc k ≡ 2 * (q * 2 ^ k)
mul-two_pow_suc q k = omega (arith, ap (λ (t : ℕ). q * t) (pow-suc 2 k))

-- `(q << k) | r` is a sum when `r` fits `k` bits.
pub bit_or_fields : (k q r : ℕ) → r < 2 ^ k → bit_or (q * 2 ^ k) r ≡ q * 2 ^ k + r
bit_or_fields zero q r h = ground (arith, bit_or-zero q)
bit_or_fields (suc k) q r h = ground (
  arith,
  bit_or-halves (q * 2 ^ suc k) r,
  mul-two_pow_suc q k,
  bit_or_fields k q (r / 2) (omega arith),
)

bit_and_fields : (k q r : ℕ) → r < 2 ^ k → bit_and (q * 2 ^ k + r) (2 ^ k - 1) ≡ r
bit_and_fields zero q r h = ground (arith, bit_and-zero (q * 2 ^ 0 + r))
bit_and_fields (suc k) q r h = ground (
  arith,
  bit_and-halves (q * 2 ^ suc k + r) (2 ^ suc k - 1),
  mul-two_pow_suc q k,
  pow-suc 2 k,
  one-le-pow k 2,
  bit_and_fields k q (r / 2) (omega arith),
)

-- A mask of the `k` low bits is the remainder by `2 ^ k`.
pub bit_and_mask : (k a : ℕ) → bit_and a (2 ^ k - 1) ≡ a % 2 ^ k
bit_and_mask k a = ground (arith, one-le-pow k 2, bit_and_fields k (a / 2 ^ k) (a % 2 ^ k))

-- `&` with a mask that has `k` zeros at its end.
pub bit_and_shifted : (k a m : ℕ) → bit_and a (m * 2 ^ k) ≡ bit_and (a / 2 ^ k) m * 2 ^ k
bit_and_shifted zero a m = let e : m * 2 ^ 0 ≡ m = omega arith in rw (e, div-one a) (omega arith)
bit_and_shifted (suc k) a m =
    let twice : 2 * 2 ^ k ≡ 2 ^ suc k = omega (arith, pow-suc 2 k) in
    let low : m * 2 ^ suc k / 2 ≡ m * 2 ^ k = omega (arith, mul-two_pow_suc m k) in
    let parity : m * 2 ^ suc k % 2 ≡ 0 = omega (arith, mul-two_pow_suc m k) in
    let halves : a / 2 / 2 ^ k ≡ a / 2 ^ suc k =
      div-div-eq-div-mul a 2 (2 ^ k) ∙ ap (λ d. a / d) twice in
    rw (bit_and-halves a (m * 2 ^ suc k), low, parity, bit_and_shifted k (a / 2) m, halves)
      (omega (arith, mul-two_pow_suc (bit_and (a / 2 ^ suc k) m) k))
