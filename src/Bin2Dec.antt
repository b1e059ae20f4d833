-- ===== src/Bin2Dec.antt =====
-- `bin2dec` (src/sia.c).
pub mod Exact
use app_sia_x.Base.{ℕ, zero, suc, ◌+◌, ◌/◌, ◌%◌, [], ◌∷◌, Bytes, ◌==◌, if◌then◌else◌, u8, write}

-- `for (nn = n; nn != 0; nn /= 10) len++;` with fuel: `n` rounds are enough for `nn = n`.
unfoldable pub dec_len : ℕ → ℕ → ℕ
dec_len zero nn = 0
dec_len (suc fuel) nn = let rest = suc (dec_len fuel (nn / 10)) in if nn == 0 then 0 else rest

-- `for (i = len-1; i >= 0; i--) { dst[i] = (n % 10) + '0'; n /= 10; }`, by the digits left.
unfoldable pub store_digits : ℕ → Bytes → ℕ → ℕ → Bytes
store_digits zero dst off n = dst
store_digits (suc i) dst off n =
    store_digits i (write dst (off + i) (u8 (n % 10 + b'0') ∷ [])) off (n / 10)

-- `bin2dec(array + off, n)`: the array as it is left, and the length of the string.
unfoldable pub bin2dec : Bytes → ℕ → ℕ → Bytes × ℕ
bin2dec dst off n =
    let len = dec_len n n in
    if n == 0
    then (write (write dst off (b'0' ∷ [])) (off + 1) (0 ∷ []), 1)
    else (write (store_digits len dst off n) (off + len) (0 ∷ []), len)
