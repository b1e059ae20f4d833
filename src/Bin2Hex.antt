-- ===== src/Bin2Hex.antt =====
-- `bin2hex` (src/sia.c).
pub mod RoundTrip
use app_sia_x.Base.{
  ℕ, zero, suc, ◌+◌, ◌-◌, ◌*◌, ◌/◌, ◌^◌, [], ◌∷◌, Bytes, bit_and, byte_at, codes, write,
}

-- `hex[n]`
unfoldable pub hex_digit : ℕ → ℕ
hex_digit n = byte_at (codes "0123456789abcdef") n

-- The loop at index `i`, with so many rounds left; `dst` stands at offset `off` of an array.
unfoldable pub hex_loop : ℕ → ℕ → Bytes → ℕ → Bytes → Bytes
unfolding hex_digit
hex_loop zero i dst off bin = dst
hex_loop (suc left) i dst off bin =
    let high = hex_digit (bit_and (byte_at bin i / 2 ^ 4) 0x0F) in
    let low = hex_digit (bit_and (byte_at bin i / 2 ^ 0) 0x0F) in
    hex_loop left (i + 1)
      (write (write dst (off + 2 * i) (high ∷ [])) (off + (2 * i + 1)) (low ∷ [])) off bin

-- `bin2hex(array + off, bin, inlen)`: the array as it is left.
unfoldable pub bin2hex : Bytes → ℕ → Bytes → ℕ → Bytes
unfolding hex_loop
bin2hex dst off bin inlen = write (hex_loop inlen 0 dst off bin) (off + 2 * inlen) (0 ∷ [])
