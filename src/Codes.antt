-- ===== src/Codes.antt =====
-- The status words, the decoder states and the byte-order macros of src/sia.h.
use app_sia_x.Base.{
  ℕ, ◌+◌, ◌*◌, ◌^◌, ◌≤◌, ◌<◌, ◌≡◌, ap, sym, ◌∙◌, ◌++◌, arith, bit_and, bit_or, bit_or_fields,
  bit_and_mask, Bytes, u64, length, take, drop, All, All-split, IsByte, be_value, be_from,
  be_from-append, be_from_word, be_value-lt_word, le_value, le_value_word, le_value-lt_word,
  take_add, drop-drop, length-take, length-drop,
}
use app_sia_x.Sdk.{Sdk, IsSdk}

abbrev pub sw_developer_err : ℕ
sw_developer_err = 0x6B00

abbrev pub sw_invalid_param : ℕ
sw_invalid_param = 0x6B01

abbrev pub sw_improper_init : ℕ
sw_improper_init = 0x6B02

abbrev pub sw_user_rejected : ℕ
sw_user_rejected = 0x6985

abbrev pub sw_ok : ℕ
sw_ok = 0x9000

-- `txnDecoderState_e`
pub data TxnDecoderState : Type 0 where
  err partial ready finished : TxnDecoderState

-- What a reader throws: the bytes are wrong, or there are too few.
abbrev pub IsFailure : TxnDecoderState → Type 0
IsFailure err = Unit {0}
IsFailure partial = Unit {0}
IsFailure ready = ⊥
IsFailure finished = ⊥

module _ {C : Type 0} (sdk : Sdk C) where
  -- `U8BE`
  unfoldable pub u8_be : Bytes → ℕ → ℕ
  u8_be buf off =
      bit_or (u64 (sdk.u4_be buf off * 2 ^ 32)) (bit_and (sdk.u4_be buf (off + 4)) 0xFFFFFFFF)

  -- `U8LE`
  unfoldable pub u8_le : Bytes → ℕ → ℕ
  u8_le buf off =
      bit_or (u64 (sdk.u4_le buf (off + 4) * 2 ^ 32)) (bit_and (sdk.u4_le buf off) 0xFFFFFFFF)

-- `|` of two words is their sum.
pub join_words :
    (hi lo : ℕ)
    → hi < 2 ^ 32
    → lo < 2 ^ 32
    → bit_or (u64 (hi * 2 ^ 32)) (bit_and lo 0xFFFFFFFF) ≡ hi * 2 ^ 32 + lo
join_words hi lo h l =
    let e1 : u64 (hi * 2 ^ 32) ≡ hi * 2 ^ 32 = omega arith in
    let e2 : bit_and lo 0xFFFFFFFF ≡ lo = omega (arith, bit_and_mask 32 lo) in
    rw (e1, e2) (bit_or_fields 32 hi lo l)

module _ (w : Bytes) (fits : 8 ≤ length w) (bytes : All IsByte (take 8 w)) where
  abbrev front : Bytes
  front = take 4 w

  abbrev back : Bytes
  back = take 4 (drop 4 w)

  halves : take 8 w ≡ front ++ back
  halves = take_add 4 4 w

  length-front : length front ≡ 4
  length-front = omega (arith, length-take {0} 4 w)

  length-back : length back ≡ 4
  length-back = omega (arith, length-take {0} 4 (drop 4 w), length-drop {0} 4 w)

  half_bytes : All IsByte front × All IsByte back
  half_bytes = All-split IsByte front back (rw halves at bytes)

  be_join :
      bit_or (u64 (be_value front * 2 ^ 32)) (bit_and (be_value back) 0xFFFFFFFF)
      ≡ be_value (take 8 w)
  be_join =
      join_words (be_value front) (be_value back) (be_value-lt_word front length-front half_bytes.0)
        (be_value-lt_word back length-back half_bytes.1)
      ∙ sym (be_from_word (be_value front) back length-back)
      ∙ sym (be_from-append 0 front back)
      ∙ ap be_value (sym halves)

  pub be_from_limb : (acc : ℕ) → be_from acc (take 8 w) ≡ acc * 2 ^ 64 + be_value (take 8 w)
  be_from_limb acc =
      rw (halves, be_from-append acc front back, be_from-append 0 front back)
        (omega (
          arith,
          be_from_word (be_from acc front) back length-back,
          be_from_word (be_value front) back length-back,
          be_from_word acc front length-front,
        ))

  pub be_value-lt_limb : be_value (take 8 w) < 2 ^ 64
  be_value-lt_limb =
      rw (halves, be_from-append)
        (omega (
          arith,
          be_from_word (be_value front) back length-back,
          be_value-lt_word front length-front half_bytes.0,
          be_value-lt_word back length-back half_bytes.1,
        ))

  le_join :
      bit_or (u64 (le_value back * 2 ^ 32)) (bit_and (le_value front) 0xFFFFFFFF)
      ≡ le_value (take 8 w)
  le_join =
      join_words (le_value back) (le_value front) (le_value-lt_word back length-back half_bytes.1)
        (le_value-lt_word front length-front half_bytes.0)
      ∙ sym (le_value_word front back length-front)
      ∙ ap le_value (sym halves)

module _ {C : Type 0} (sdk : Sdk C) (laws : IsSdk sdk) where
  -- Inside an array of bytes `U8BE` reads eight of them, the most significant first, if the SDK's
  -- `U4BE` reads four.
  pub u8_be_reads :
      (buf : Bytes) (i : ℕ)
      → i + 8 ≤ length buf
      → All IsByte (take 8 (drop i buf))
      → u8_be sdk buf i ≡ be_value (take 8 (drop i buf))
  unfolding u8_be
  u8_be_reads buf i fits bytes =
      rw
        (
          laws.u4_be_reads buf i (omega arith),
          laws.u4_be_reads buf (i + 4) (omega arith),
          ← drop-drop 4 i buf,
        )
        (be_join (drop i buf) (omega (arith, length-drop {0} i buf)) bytes)

  -- Inside an array of bytes `U8LE` reads eight of them, the least significant first, if the SDK's
  -- `U4LE` reads four.
  pub u8_le_reads :
      (buf : Bytes) (i : ℕ)
      → i + 8 ≤ length buf
      → All IsByte (take 8 (drop i buf))
      → u8_le sdk buf i ≡ le_value (take 8 (drop i buf))
  unfolding u8_le
  u8_le_reads buf i fits bytes =
      rw
        (
          laws.u4_le_reads buf i (omega arith),
          laws.u4_le_reads buf (i + 4) (omega arith),
          ← drop-drop 4 i buf,
        )
        (le_join (drop i buf) (omega (arith, length-drop {0} i buf)) bytes)
