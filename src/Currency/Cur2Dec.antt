-- ===== src/Currency/Cur2Dec.antt =====
-- `cur2dec` (src/txn.c): a Sia-encoded currency value as a decimal string.
pub mod Digits
pub mod Returns
pub mod Exact
use app_sia_x.Base.{
  ℕ, zero, suc, ◌+◌, ◌-◌, ◌*◌, ◌/◌, ◌%◌, ◌≡◌, refl, List, [], ◌∷◌, Bytes, ltb, ◌==◌, if◌then◌else◌,
  u8, byte_at, drop, write, length, Result, ok, throw, stuck,
}
use app_sia_x.Sdk.{Sdk}
use app_sia_x.Codes.{TxnDecoderState, err, u8_be}
use app_sia_x.Currency.Limbs.{quorem10, normalize}

module _ {C : Type 0} (sdk : Sdk C) where
  -- `nat[len-i-1] = U8BE(cur, i*8)`, with so many limbs left to load.
  unfoldable pub load_limbs : ℕ → ℕ → Bytes → List ℕ → List ℕ
  load_limbs zero i cur nat = nat
  load_limbs (suc left) i cur nat = load_limbs left (i + 1) cur (u8_be sdk cur (i * 8) ∷ nat)

-- The digits, right to left. The first argument is `i`, the free space in front of `buf`, and the
-- last one what `buf` holds from `i` on.
unfoldable pub decode_digits : ℕ → List ℕ → Bytes → Result TxnDecoderState Bytes
decode_digits i [] buf = ok buf
decode_digits zero (x ∷ nat) buf = throw err
decode_digits (suc i) (x ∷ nat) buf =
    let (nat', r) = quorem10 (x ∷ nat) in decode_digits i (normalize nat') (u8 (b'0' + r) ∷ buf)

-- `memmove(out, buf+i, sizeof(buf)-i); return sizeof(buf)-i-1;`
abbrev copy_out : Bytes → Result TxnDecoderState Bytes → Result TxnDecoderState (Bytes × ℕ)
copy_out out (ok text) = ok (write out 0 text, length text - 1)
copy_out out (throw e) = throw e
copy_out out stuck = stuck

-- `(cur[0] / 8) + ((cur[0] % 8) != 0)`
abbrev pub limb_count : ℕ → ℕ
limb_count n = n / 8 + (if n % 8 == 0 then 0 else 1)

-- `cur2dec(out, cur)`: `out` as it is left, and the length of the string. `buf` has 64 bytes, the
-- last one NUL.
unfoldable pub cur2dec : {C : Type 0} → Sdk C → Bytes → Bytes → Result TxnDecoderState (Bytes × ℕ)
unfolding load_limbs decode_digits
cur2dec sdk out cur =
    let size = byte_at cur 0 in
    let len = limb_count size in
    let limbs = load_limbs sdk len 0 (drop (8 - (len * 8 - size)) cur) [] in
    if size == 0
    then ok (write out 0 (0 ∷ []), 0)
    else if ltb 18 size
    then throw err
    else copy_out out (decode_digits 63 limbs (0 ∷ []))
