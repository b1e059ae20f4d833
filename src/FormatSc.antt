-- ===== src/FormatSc.antt =====
-- `formatSC` (src/sia.c): a decimal string of hastings as siacoins.
pub mod Point
pub mod Trim
pub mod Exact
use app_sia_x.Base.{
  ℕ, zero, suc, ◌+◌, ◌-◌, [], ◌∷◌, ◌++◌, Bytes, ltb, ◌==◌, if◌then◌else◌, byte_at, codes, take,
  drop, replicate, write,
}

abbrev pub sc_zeros : ℕ
sc_zeros = 24

-- The moves that make room for the point, and the index of the last digit.
unfoldable pub make_room : Bytes → ℕ → Bytes × ℕ
make_room buf dec_len =
    if ltb dec_len (sc_zeros + 1)
    then (
      write (write buf (sc_zeros - dec_len + 2) (take (dec_len + 1) buf)) 0
          (replicate (sc_zeros + 2 - dec_len) b'0'),
      sc_zeros + 1,
    )
    else (
      write buf (dec_len - sc_zeros + 1) (take (sc_zeros + 1) (drop (dec_len - sc_zeros) buf)),
      dec_len,
    )

-- `while (decLen > 0 && buf[decLen] == '0') decLen--;`
unfoldable pub trim_zeros : Bytes → ℕ → ℕ
trim_zeros buf zero = zero
trim_zeros buf (suc n) =
    let rest = trim_zeros buf n in if byte_at buf (suc n) == b'0' then rest else suc n

-- `formatSC(buf, decLen)`: the array as it is left, and the number returned.
unfoldable pub format_sc : Bytes → ℕ → Bytes × ℕ
format_sc buf dec_len =
    let (room, last) = make_room buf dec_len in
    let pointed = write room (last - sc_zeros) (b'.' ∷ []) in
    let trimmed = trim_zeros pointed last in
    let end = if byte_at pointed trimmed == b'.' then trimmed - 1 else trimmed in
    (write pointed (end + 1) (codes " SC" ++ 0 ∷ []), end + 4)
