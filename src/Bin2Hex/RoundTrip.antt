-- ===== src/Bin2Hex/RoundTrip.antt =====
-- The text that `bin2hex` writes, and that it can be read back.
use app_sia_x.Base.{
  ℕ, zero, suc, ◌+◌, ◌-◌, ◌*◌, ◌/◌, ◌%◌, ◌^◌, ◌≤◌, ◌<◌, ◌≡◌, ◌∙◌, ap, refl, sym, arith, [], ◌∷◌,
  ◌++◌, Bytes, bit_and, bit_and_mask, byte_at, write, write_after, write-nil, eq_of_table,
  all_below, length-take, length, take, drop, ltb, if◌then◌else◌, All, IsByte,
}
use native.Mathlib.Nat.{suc-add, div-one, add-zero}
use app_sia_x.Bin2Hex.{hex_digit, hex_loop, bin2hex}

-- Two digits for each byte.
pub hex_text : Bytes → Bytes
hex_text [] = []
hex_text (b ∷ bs) = hex_digit (b / 16 % 16) ∷ hex_digit (b % 16) ∷ hex_text bs

pub length-hex_text : (bs : Bytes) → length (hex_text bs) ≡ 2 * length bs
unfolding hex_text
length-hex_text [] = refl
length-hex_text (b ∷ bs) = omega (arith, length-hex_text bs)

byte_at-drop : (i : ℕ) (bs : Bytes) → i < length bs → drop i bs ≡ byte_at bs i ∷ drop (i + 1) bs
byte_at-drop i [] h = absurd (omega arith)
byte_at-drop zero (b ∷ bs) h = refl
byte_at-drop (suc i) (b ∷ bs) h = rw suc-add (byte_at-drop i bs (omega arith))

hex_loop_lem :
    (left i : ℕ) (dst : Bytes) (off : ℕ) (bin : Bytes)
    → i + left ≤ length bin
    → hex_loop left i dst off bin ≡ write dst (off + 2 * i) (hex_text (take left (drop i bin)))
unfolding hex_loop hex_text
hex_loop_lem zero i dst off bin h = sym (write-nil dst (off + 2 * i))
hex_loop_lem (suc left) i dst off bin h =
    let b = byte_at bin i in
    let tail = hex_text (take left (drop (i + 1) bin)) in
    let high : bit_and (b / 2 ^ 4) 0x0F ≡ b / 16 % 16 = bit_and_mask 4 (b / 16) in
    let low : bit_and (b / 2 ^ 0) 0x0F ≡ b % 16 =
      bit_and_mask 4 (b / 1) ∙ ap (λ n. n % 16) (div-one b) in
    let next : off + (2 * i + 1) ≡ off + 2 * i + 1 = omega arith in
    let after : off + 2 * (i + 1) ≡ off + 2 * i + 2 = omega arith in
    rw (
      high,
      low,
      next,
      write_after dst (off + 2 * i) (hex_digit (b / 16 % 16) ∷ []) (hex_digit (b % 16) ∷ []),
      hex_loop_lem left (i + 1) _ off bin (omega arith),
      after,
      write_after dst (off + 2 * i) (hex_digit (b / 16 % 16) ∷ hex_digit (b % 16) ∷ []) tail,
      byte_at-drop i bin (omega arith),
    )

-- What a hexadecimal digit stands for.
unhex_digit : ℕ → ℕ
unhex_digit c = if ltb c b'a' then c - b'0' else c - b'a' + 10

pub unhex : Bytes → Bytes
unhex [] = []
unhex (c ∷ []) = []
unhex (c ∷ d ∷ s) = (unhex_digit c * 16 + unhex_digit d) ∷ unhex s

unhex_digit-hex_digit : (n : ℕ) → n < 16 → unhex_digit (hex_digit n) ≡ n
unfolding unhex_digit hex_digit all_below
unhex_digit-hex_digit n h = eq_of_table 16 (λ x. unhex_digit (hex_digit x)) (λ x. x) refl n h

pub unhex-hex_text : (bs : Bytes) → All IsByte bs → unhex (hex_text bs) ≡ bs
unfolding unhex hex_text
unhex-hex_text [] h = refl
unhex-hex_text (b ∷ bs) (hb, h) =
    rw
      (
        unhex_digit-hex_digit (b / 16 % 16) (omega arith),
        unhex_digit-hex_digit (b % 16) (omega arith),
        unhex-hex_text bs h,
      )
      (ap (λ n. n ∷ bs) (omega arith))

pub bin2hex-eq-write :
    (dst : Bytes) (off : ℕ) (bin : Bytes) (inlen : ℕ)
    → inlen ≤ length bin
    → bin2hex dst off bin inlen ≡ write dst off (hex_text (take inlen bin) ++ 0 ∷ [])
unfolding bin2hex
bin2hex-eq-write dst off bin inlen h = rw (
  hex_loop_lem inlen 0 dst off bin (omega arith),
  add-zero off,
  ← length-text,
  write_after dst off (hex_text (take inlen bin)) (0 ∷ []),
)
  where
    length-text : length (hex_text (take inlen bin)) ≡ 2 * inlen
    length-text = omega (arith, length-hex_text (take inlen bin), length-take {0} inlen bin)

-- Of an array with `inlen` bytes at least, `bin2hex` writes two digits for each of the first
-- `inlen` and a NUL byte, and nothing else; the text reads back as those bytes.
pub bin2hex_exact :
    (dst : Bytes) (off : ℕ) (bin : Bytes) (inlen : ℕ)
    → inlen ≤ length bin
    → All IsByte (take inlen bin)
    → (text : Bytes) × (bin2hex dst off bin inlen ≡ write dst off (text ++ 0 ∷ []))
      × (length text ≡ 2 * inlen)
      × (unhex text ≡ take inlen bin)
bin2hex_exact dst off bin inlen h bytes = (
  hex_text (take inlen bin),
  bin2hex-eq-write dst off bin inlen h,
  omega (arith, length-hex_text (take inlen bin), length-take {0} inlen bin),
  unhex-hex_text (take inlen bin) bytes,
)
