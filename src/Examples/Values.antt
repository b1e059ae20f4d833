-- ===== src/Examples/Values.antt =====
-- Currency values and texts (src/txn.c, src/sia.c) at concrete inputs.
use app_sia_x.Base.{
  ◌+◌, ◌*◌, ◌^◌, ◌≤◌, ◌<◌, ◌≡◌, refl, arith, [], ◌∷◌, ◌++◌, Bytes, codes, ok, length, take, write,
  replicate, be_value,
}
use app_sia_x.Codes.{u8_be, u8_le, u8_le_reads, u8_be_reads}
use app_sia_x.Decimal.{IsDecimal}
use app_sia_x.Bin2Hex.{bin2hex}
use app_sia_x.Bin2Hex.RoundTrip.{unhex, bin2hex_exact}
use app_sia_x.Bin2Dec.{bin2dec, dec_len, store_digits}
use app_sia_x.Bin2Dec.Exact.{bin2dec_exact}
use app_sia_x.Currency.DivWw.{div_ww10, div_ww10_lem}
use app_sia_x.Currency.Limbs.{quorem10, limbs_value, IsLimb, quorem10_lem}
use app_sia_x.Currency.Cur2Dec.{cur2dec}
use app_sia_x.Currency.Cur2Dec.Exact.{cur2dec_exact}
use app_sia_x.Examples.Toy.{toy, toy-IsSdk}
use app_sia_x.Base.{All, IsByte, drop, le_value}

-- 10 ^ 9, as the four bytes 3b 9a ca 00.
abbrev billion : Bytes
billion = 0x3b ∷ 0x9a ∷ 0xca ∷ 0 ∷ []

abbrev words : Bytes
words = 1 ∷ 2 ∷ billion ++ billion

words-bytes : All IsByte (take 8 (drop 1 words))
words-bytes = omega arith

u8_be_reads_example : u8_be toy words 1 ≡ be_value (take 8 (drop 1 words))
u8_be_reads_example = u8_be_reads toy toy-IsSdk words 1 (omega arith) words-bytes

u8_le_reads_example : u8_le toy words 1 ≡ le_value (take 8 (drop 1 words))
u8_le_reads_example = u8_le_reads toy toy-IsSdk words 1 (omega arith) words-bytes

div_ww10_lem_example :
    let (q, r) = div_ww10 9 12345 in (q * 10 + r ≡ 9 * 2 ^ 64 + 12345) × (r < 10) × (q < 2 ^ 64)
div_ww10_lem_example = div_ww10_lem 9 12345 (omega arith) (omega arith)

abbrev two_limbs : Bytes
two_limbs = 7 ∷ 3 ∷ []

quorem10_lem_example :
    let (nat', r) = quorem10 two_limbs in
    (limbs_value nat' * 10 + r ≡ limbs_value two_limbs) × (r < 10) × All IsLimb nat'
quorem10_lem_example = quorem10_lem two_limbs (omega arith)

abbrev screen : Bytes
screen = replicate 128 0

cur2dec_exact_example :
    (s : Bytes) × (cur2dec toy screen (length billion ∷ replicate 7 0 ++ billion ++ [])
      ≡ ok (write screen 0 (s ++ 0 ∷ []), length s))
    × IsDecimal (be_value billion) s
    × (length s ≤ 44)
cur2dec_exact_example =
    cur2dec_exact toy toy-IsSdk screen billion [] (omega arith) (omega arith) (omega arith)

bin2hex_exact_example :
    (text : Bytes) × (bin2hex screen 0 billion 4 ≡ write screen 0 (text ++ 0 ∷ []))
    × (length text ≡ 2 * 4)
    × (unhex text ≡ take 4 billion)
bin2hex_exact_example = bin2hex_exact screen 0 billion 4 (omega arith) (omega arith)

bin2dec_exact_example :
    (s : Bytes) × (bin2dec screen 3 1905 ≡ (write screen 3 (s ++ 0 ∷ []), length s))
    × IsDecimal 1905 s
    × (length s ≤ 20)
bin2dec_exact_example = bin2dec_exact screen 3 1905 (omega arith)

bin2dec_max :
    (bin2dec (replicate 22 7) 0 18446744073709551615).0 ≡ codes "18446744073709551615" ++ 0 ∷ 7 ∷ []
unfolding bin2dec dec_len store_digits
bin2dec_max = refl
