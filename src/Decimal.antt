-- ===== src/Decimal.antt =====
-- Decimal text: what `cur2dec`, `bin2dec` and `formatSC` are held to.
use app_sia_x.Base.{ℕ, ◌+◌, ◌-◌, ◌*◌, ◌≤◌, ◌≡◌, ◌≢◌, refl, [], ◌∷◌, ◌++◌, ◌⊎◌, Bytes, All}

abbrev pub IsDigit : ℕ → Type 0
IsDigit c = (b'0' ≤ c) × (c ≤ b'9')

-- The number that digits spell behind `n`.
abbrev pub dec_from : ℕ → Bytes → ℕ
dec_from n [] = n
dec_from n (c ∷ s) = dec_from (n * 10 + (c - b'0')) s

abbrev pub dec_value : Bytes → ℕ
dec_value = dec_from 0

-- The first byte is not the digit zero.
abbrev pub NoLeadingZero : Bytes → Type 0
NoLeadingZero [] = Unit
NoLeadingZero (c ∷ s) = c ≢ b'0'

-- `s` is the decimal numeral of `n`: digits that spell it, with no leading zero but in "0".
pub record IsDecimal (n : ℕ) (s : Bytes) : Type 0 where
  pub digits : All IsDigit s
  pub value : dec_value s ≡ n
  pub some_digit : s ≢ []
  pub canonical : NoLeadingZero s ⊎ (s ≡ b'0' ∷ [])

pub dec_from-append : (n : ℕ) (xs ys : Bytes) → dec_from n (xs ++ ys) ≡ dec_from (dec_from n xs) ys
dec_from-append n [] ys = refl
dec_from-append n (x ∷ xs) ys = dec_from-append (n * 10 + (x - b'0')) xs ys
