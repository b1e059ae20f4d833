-- ===== src/Txn/Encoding/Words.antt =====
-- Little-endian words are read back.
use app_sia_x.Base.{
  ℕ, zero, suc, ◌/◌, ◌%◌, ◌^◌, ◌<◌, ◌≡◌, refl, ap, arith, ◌∷◌, length, replicate, All, IsByte,
  le_value,
}
use native.Mathlib.Nat.{pow-suc}
use app_sia_x.Txn.Encoding.{le_bytes, u64_bytes}

pub length-le_bytes : (k n : ℕ) → length (le_bytes k n) ≡ k
length-le_bytes zero n = refl
length-le_bytes (suc k) n = ap suc (length-le_bytes k (n / 256))

pub le_bytes-IsByte : (k n : ℕ) → All IsByte (le_bytes k n)
le_bytes-IsByte zero n = tt
le_bytes-IsByte (suc k) n = (omega arith, le_bytes-IsByte k (n / 256))

pub le_value-le_bytes : (k n : ℕ) → n < 256 ^ k → le_value (le_bytes k n) ≡ n
le_value-le_bytes zero n h = omega arith
le_value-le_bytes (suc k) n h =
    let less : n / 256 < 256 ^ k = omega (arith, pow-suc 256 k) in
    omega (arith, le_value-le_bytes k (n / 256) less)

-- A number below 256.
pub u64_bytes_small : (n : ℕ) → n < 256 → u64_bytes n ≡ n ∷ replicate 7 0
u64_bytes_small n h =
    let low : n % 256 ≡ n = omega arith in
    let high : n / 256 ≡ 0 = omega arith in rw (low, high) refl
