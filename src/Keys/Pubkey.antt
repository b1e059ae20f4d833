-- ===== src/Keys/Pubkey.antt =====
-- Public keys (src/sia.c): `extractPubkeyBytes` writes the usual encoding of an Ed25519 point.
use app_sia_x.Base.{
  ℕ, zero, suc, ◌+◌, ◌-◌, ◌*◌, ◌%◌, ◌^◌, ◌≤◌, ◌<◌, ◌≡◌, refl, sym, ap, ◌∙◌, arith, not, ◌==◌,
  Bool-cases, inl, inr, if◌then◌else◌, [], ◌∷◌, ◌++◌, Bytes, bit_and, bit_or, bit_and_mask,
  all_below, eq_of_table, byte_at, take, drop, write, write-nil, write_after, write_byte_at,
  byte_at-write_at, length, length-drop, be_value, be_from-append, le_value,
}
use app_sia_x.Keys.{reverse_point, extract_pubkey_bytes}

-- `W[64 - i]` and the bytes in front of it, down to so many.
abbrev reversed : ℕ → ℕ → Bytes → Bytes
reversed zero i w = []
reversed (suc left) i w = byte_at w (64 - i) ∷ reversed left (i + 1) w

reverse_point-eq-write :
    (left i : ℕ) (dst : Bytes) (off : ℕ) (w : Bytes)
    → reverse_point left i dst off w ≡ write dst (off + i) (reversed left i w)
unfolding reverse_point
reverse_point-eq-write zero i dst off w = sym (write-nil dst (off + i))
reverse_point-eq-write (suc left) i dst off w =
    let next : off + (i + 1) ≡ off + i + 1 = omega arith in
    reverse_point-eq-write left (i + 1) (write dst (off + i) (byte_at w (64 - i) ∷ [])) off w
    ∙ ap (λ n. write (write dst (off + i) (byte_at w (64 - i) ∷ [])) n (reversed left (i + 1) w))
        next
    ∙ write_after dst (off + i) (byte_at w (64 - i) ∷ []) (reversed left (i + 1) w)

-- The first 31 bytes of a key, and its last byte with the sign bit.
abbrev low_bytes : Bytes → Bytes
low_bytes w = reversed 31 0 w

abbrev high_byte : Bytes → ℕ
high_byte w =
    if not (bit_and (byte_at w 32) 1 == 0) then bit_or (byte_at w 33) 0x80 else byte_at w 33

abbrev pub sia_pubkey : Bytes → Bytes
sia_pubkey w = low_bytes w ++ high_byte w ∷ []

-- `extractPubkeyBytes` writes those 32 bytes, and nothing else.
pub extract_pubkey_bytes-eq-write :
    (dst : Bytes) (off : ℕ) (w : Bytes)
    → off + 32 ≤ length dst
    → extract_pubkey_bytes dst off w ≡ write dst off (sia_pubkey w)
unfolding extract_pubkey_bytes
extract_pubkey_bytes-eq-write dst off w room =
    let key = low_bytes w ++ byte_at w 33 ∷ [] in
    let at : off + 0 ≡ off = omega arith in
    let stored : reverse_point 32 0 dst off w ≡ write dst off key =
      reverse_point-eq-write 32 0 dst off w ∙ ap (λ n. write dst n key) at in
    let last : byte_at (write dst off key) (off + 31) ≡ byte_at w 33 =
      byte_at-write_at dst off key 31 (omega arith) room in
    elim (Bool-cases (bit_and (byte_at w 32) 1 == 0)) [
      | inl e ↦ rw (stored, e) refl
      | inr e ↦
          rw (stored, e, last)
            (write_byte_at dst off (low_bytes w) (byte_at w 33) (bit_or (byte_at w 33) 0x80) [])
    ]

take-suc : (n : ℕ) (bs : Bytes) → n < length bs → take (suc n) bs ≡ take n bs ++ byte_at bs n ∷ []
take-suc n [] h = absurd (omega arith)
take-suc zero (b ∷ bs) h = refl
take-suc (suc n) (b ∷ bs) h = ap (◌∷◌ b) (take-suc n bs (omega arith))

byte_at-drop : (k n : ℕ) (bs : Bytes) → byte_at (drop k bs) n ≡ byte_at bs (k + n)
byte_at-drop zero n bs = let e : n ≡ 0 + n = omega arith in ap (byte_at bs) e
byte_at-drop (suc k) n [] = refl
byte_at-drop (suc k) n (b ∷ bs) =
    let e : suc (k + n) ≡ suc k + n = omega arith in byte_at-drop k n bs ∙ ap (byte_at (b ∷ bs)) e

-- Bytes taken from behind are a little-endian number.
reversed_value :
    (left i : ℕ) (w : Bytes)
    → i + left ≤ 65
    → 65 ≤ length w
    → le_value (reversed left i w) ≡ be_value (take left (drop (65 - (i + left)) w))
reversed_value zero i w h long = refl
reversed_value (suc left) i w h long =
    let from = 65 - (i + suc left) in
    let tail = drop from w in
    let place : from + left ≡ 64 - i = omega arith in
    let here : byte_at tail left ≡ byte_at w (64 - i) =
      byte_at-drop from left w ∙ ap (byte_at w) place in
    let next : 65 - (i + 1 + left) ≡ from = omega arith in
    let rest : le_value (reversed left (i + 1) w) ≡ be_value (take left tail) =
      reversed_value left (i + 1) w (omega arith) long
      ∙ ap (λ k. be_value (take left (drop k w))) next in
    let split : be_value (take (suc left) tail)
        ≡ be_value (take left tail) * 256 + byte_at tail left =
      ap be_value (take-suc left tail (omega (arith, length-drop {0} from w)))
      ∙ be_from-append 0 (take left tail) (byte_at tail left ∷ []) in
    omega (arith, here, rest, split)

bit_or-0x80 : (x : ℕ) → x < 128 → bit_or x 0x80 ≡ x + 128
unfolding all_below
bit_or-0x80 x h = eq_of_table 128 (λ x. bit_or x 0x80) (λ x. x + 128) refl x h

sia_pubkey_value :
    (w : Bytes)
    → length w ≡ 65
    → byte_at w 33 < 128
    → le_value (sia_pubkey w) ≡ be_value (take 32 (drop 33 w)) + 2 ^ 255 * (byte_at w 32 % 2)
sia_pubkey_value w size top =
    let whole : le_value (reversed 32 0 w) ≡ be_value (take 32 (drop 33 w)) =
      reversed_value 32 0 w (omega arith) (omega arith) in
    let parity : bit_and (byte_at w 32) 1 ≡ byte_at w 32 % 2 = bit_and_mask 1 (byte_at w 32) in
    elim (Bool-cases (bit_and (byte_at w 32) 1 == 0)) [
      | inl e ↦
          let high : high_byte w ≡ byte_at w 33 = rw e refl in
          let even : byte_at w 32 % 2 ≡ 0 = ground arith in omega (arith, whole, high, even)
      | inr e ↦
          let high : high_byte w ≡ byte_at w 33 + 128 = rw e (bit_or-0x80 (byte_at w 33) top) in
          let odd : byte_at w 32 % 2 ≡ 1 = ground arith in omega (arith, whole, high, odd)
    ]

-- For a point with an ordinate below 2 ^ 255, as the SDK stores it (a byte 4, then both
-- coordinates, big-endian), `extractPubkeyBytes` writes 32 bytes and nothing else: the ordinate in
-- little-endian order with the parity of the abscissa in the top bit, the encoding of RFC 8032.
pub extract_pubkey_bytes_lem :
    (dst : Bytes) (off : ℕ) (w : Bytes)
    → off + 32 ≤ length dst
    → length w ≡ 65
    → byte_at w 33 < 128
    → (key : Bytes) × (extract_pubkey_bytes dst off w ≡ write dst off key)
      × (length key ≡ 32)
      × (le_value key ≡ be_value (take 32 (drop 33 w)) + 2 ^ 255 * (byte_at w 32 % 2))
extract_pubkey_bytes_lem dst off w room size top =
    (sia_pubkey w, extract_pubkey_bytes-eq-write dst off w room, refl, sia_pubkey_value w size top)
