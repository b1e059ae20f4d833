-- ===== src/Bin2Dec/Exact.antt =====
-- What `bin2dec` writes: the decimal numeral of its argument.
use app_sia_x.Base.{
  ℕ, zero, suc, ◌+◌, ◌/◌, ◌%◌, ◌^◌, ◌≤◌, ◌<◌, ◌≡◌, ◌≢◌, ◌∙◌, ap, refl, sym, arith, [], ◌∷◌, ◌++◌,
  inl, inr, Bytes, Bool-cases, false, ◌==◌, u8, write, write_after, write_before, write-nil, length,
  length-append, All, All-append,
}
use native.Mathlib.Nat.{pow-suc}
use app_sia_x.Decimal.{IsDigit, dec_value, dec_from-append, NoLeadingZero, IsDecimal}
use app_sia_x.Bin2Dec.{dec_len, store_digits, bin2dec}

-- The `len` last digits of `n`.
last_digits : ℕ → ℕ → Bytes
last_digits zero n = []
last_digits (suc i) n = last_digits i (n / 10) ++ u8 (n % 10 + b'0') ∷ []

length-last_digits : (i n : ℕ) → length (last_digits i n) ≡ i
unfolding last_digits
length-last_digits zero n = refl
length-last_digits (suc i) n = omega (
  arith,
  length-append {0} (last_digits i (n / 10)) (u8 (n % 10 + b'0') ∷ []),
  length-last_digits i (n / 10),
)

store_digits-eq-write :
    (i : ℕ) (dst : Bytes) (off n : ℕ) → store_digits i dst off n ≡ write dst off (last_digits i n)
unfolding store_digits last_digits
store_digits-eq-write zero dst off n = sym (write-nil dst off)
store_digits-eq-write (suc i) dst off n =
    let c = u8 (n % 10 + b'0') in
    store_digits-eq-write i (write dst (off + i) (c ∷ [])) off (n / 10)
    ∙ ap (λ k. write (write dst (off + k) (c ∷ [])) off (last_digits i (n / 10)))
        (sym (length-last_digits i (n / 10)))
    ∙ write_before dst off (last_digits i (n / 10)) (c ∷ [])

last_digits_lem :
    (i n : ℕ) → n < 10 ^ i → All IsDigit (last_digits i n) × (dec_value (last_digits i n) ≡ n)
unfolding last_digits
last_digits_lem zero n h = (tt, omega arith)
last_digits_lem (suc i) n h =
    let (digits, value) = last_digits_lem i (n / 10) (omega (arith, pow-suc 10 i)) in
    (
      All-append IsDigit (last_digits i (n / 10)) (u8 (n % 10 + b'0') ∷ []) digits
          ((omega arith, omega arith), tt),
      dec_from-append 0 (last_digits i (n / 10)) (u8 (n % 10 + b'0') ∷ []) ∙ omega arith,
    )

-- The number of digits: the least power of ten above `n`.
dec_len_lem : (fuel n : ℕ) → n ≤ fuel → n < 10 ^ dec_len fuel n
unfolding dec_len
dec_len_lem zero n h = omega arith
dec_len_lem (suc fuel) n h = elim (Bool-cases (n == 0)) [
  | inl e ↦ rw e (ground arith)
  | inr e ↦ rw e (ground (arith, dec_len_lem fuel (n / 10), pow-suc 10 (dec_len fuel (n / 10))))
]

dec_len-le : (fuel n k : ℕ) → n < 10 ^ k → dec_len fuel n ≤ k
unfolding dec_len
dec_len-le zero n k h = omega arith
dec_len-le (suc fuel) n zero h = ground arith
dec_len-le (suc fuel) n (suc k) h = ground (arith, pow-suc 10 k, dec_len-le fuel (n / 10) k)

dec_len_pos : (fuel n : ℕ) → 0 < n → n ≤ fuel → (i : ℕ) × (dec_len fuel n ≡ suc i) × (10 ^ i ≤ n)
unfolding dec_len
dec_len_pos zero n p h = absurd (omega arith)
dec_len_pos (suc fuel) n p h =
    let nonzero : (n == 0) ≡ false = ground arith in
    elim (Bool-cases (n / 10 == 0)) [
      | inl e ↦ (0, rw nonzero (ap suc (no_more fuel (n / 10) (ground arith))), omega arith)
      | inr e ↦
          let (i, len, low) = dec_len_pos fuel (n / 10) (ground arith) (omega arith) in
          (suc i, rw nonzero (ap suc len), omega (arith, pow-suc 10 i))
    ]
  where
    no_more : (f m : ℕ) → m ≡ 0 → dec_len f m ≡ 0
    no_more zero m e = refl
    no_more (suc f) m e = rw e refl

NoLeadingZero-append :
    (s : Bytes) (c : ℕ)
    → NoLeadingZero s
    → s ≢ []
    → NoLeadingZero (s ++ c ∷ []) × (s ++ c ∷ [] ≢ [])
NoLeadingZero-append [] c h ne = absurd (ne refl)
NoLeadingZero-append (d ∷ s) c h ne = (h, λ e. cc)

last_digits-NoLeadingZero :
    (i n : ℕ)
    → 10 ^ i ≤ n
    → n < 10 ^ suc i
    → NoLeadingZero (last_digits (suc i) n) × (last_digits (suc i) n ≢ [])
unfolding last_digits
last_digits-NoLeadingZero zero n low high = (omega arith, λ e. cc)
last_digits-NoLeadingZero (suc i) n low high =
    let (first, ne) =
      last_digits-NoLeadingZero i (n / 10) (omega (arith, pow-suc 10 i))
        (omega (arith, pow-suc 10 (suc i))) in
    NoLeadingZero-append (last_digits (suc i) (n / 10)) (u8 (n % 10 + b'0')) first ne

-- `bin2dec` writes the decimal numeral of every `uint64_t`, at most 20 digits, and a NUL byte
-- behind it, and returns the number of digits.
pub bin2dec_exact :
    (dst : Bytes) (off n : ℕ)
    → n < 2 ^ 64
    → (s : Bytes) × (bin2dec dst off n ≡ (write dst off (s ++ 0 ∷ []), length s))
      × IsDecimal n s
      × (length s ≤ 20)
unfolding bin2dec
bin2dec_exact dst off zero h = (
  b'0' ∷ [],
  ap (λ (a : Bytes). (a, 1)) (write_after dst off (b'0' ∷ []) (0 ∷ [])),
  record { digits = omega arith; value = refl; some_digit = λ e. cc; canonical = inr refl },
  omega arith,
)
bin2dec_exact dst off (suc m) h =
    let n = suc m in
    let nonzero : (n == 0) ≡ false = ground arith in
    let (i, len, low) = dec_len_pos n n (omega arith) (omega arith) in
    let high : n < 10 ^ suc i = rw len at (dec_len_lem n n (omega arith)) in
    let s = last_digits (suc i) n in
    let (digits, value) = last_digits_lem (suc i) n high in
    let (first, ne) = last_digits-NoLeadingZero i n low high in
    let size : length s ≡ suc i = length-last_digits (suc i) n in
    (
      s,
      rw (nonzero, len, store_digits-eq-write (suc i) dst off n)
          (ap (λ k. (write (write dst off s) (off + k) (0 ∷ []), k)) (sym size)
            ∙ ap (λ (a : Bytes). (a, length s)) (write_after dst off s (0 ∷ []))),
      record { digits = digits; value = value; some_digit = ne; canonical = inl first },
      omega (arith, dec_len-le n n 20 (omega arith)),
    )
