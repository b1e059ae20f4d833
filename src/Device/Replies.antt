-- ===== src/Device/Replies.antt =====
-- The bytes that `io_exchange_with_code` (src/main.c) sends.
use app_sia_x.Base.{
  ℕ, ◌+◌, ◌/◌, ◌^◌, ◌≤◌, ◌≡◌, ap, ◌∙◌, sym, arith, [], ◌∷◌, ◌++◌, Bytes, bit_and, u8, take, write,
  write_after, write_tail, take-write_start, length, length-append, append-nil,
}
use app_sia_x.Device.{Device, io_exchange_with_code}

-- The two bytes of a status word.
abbrev pub word_bytes : ℕ → Bytes
word_bytes code = u8 (code / 2 ^ 8) ∷ bit_and code 0xFF ∷ []

-- What stands in the APDU buffer is sent with the status word behind it; the word may overwrite
-- what a handler left there.
pub io_exchange_with_code-sends :
    {C : Type 0} (code : ℕ) (a bs junk : Bytes) (d : Device C)
    → d.apdu ≡ write a 0 (bs ++ junk)
    → length junk ≤ 1
    → length bs + 2 ≤ length a
    → let d' = io_exchange_with_code code (length bs) d in
      (d'.sent ≡ d.sent ++ (bs ++ word_bytes code) ∷ [])
      × (d'.apdu ≡ write a 0 (bs ++ word_bytes code))
unfolding io_exchange_with_code
io_exchange_with_code-sends code a bs junk d e short room =
    let hi = u8 (code / 2 ^ 8) in
    let lo = bit_and code 0xFF in
    let stored : write (write d.apdu (length bs) (hi ∷ [])) (length bs + 1) (lo ∷ [])
        ≡ write a 0 (bs ++ word_bytes code) =
      ap (λ b. write (write b (length bs) (hi ∷ [])) (length bs + 1) (lo ∷ [])) e
      ∙ write_after (write a 0 (bs ++ junk)) (length bs) (hi ∷ []) (lo ∷ [])
      ∙ write_tail a bs junk (hi ∷ lo ∷ []) (omega arith) in
    let size : length bs + 2 ≡ length (bs ++ word_bytes code) =
      omega (arith, length-append bs (word_bytes code)) in
    (
      ap (λ b. d.sent ++ take (length bs + 2) b ∷ []) stored
          ∙ ap (λ n. d.sent ++ take n (write a 0 (bs ++ word_bytes code)) ∷ []) size
          ∙ ap (λ b. d.sent ++ b ∷ [])
              (take-write_start a (bs ++ word_bytes code) (omega (arith, size))),
      stored,
    )

-- The same for bytes that are stored just before.
pub stored-sends :
    {C : Type 0} (code n : ℕ) (bs : Bytes) (d : Device C)
    → length bs ≡ n
    → n + 2 ≤ length d.apdu
    → (io_exchange_with_code code n (record d { apdu = write d.apdu 0 bs })).sent
      ≡ d.sent ++ (bs ++ word_bytes code) ∷ []
stored-sends code n bs d e room =
    let stored = record d { apdu = write d.apdu 0 bs } in
    ap (λ k. (io_exchange_with_code code k stored).sent) (sym e)
    ∙ (io_exchange_with_code-sends code d.apdu bs [] stored
        (ap (write d.apdu 0) (sym (append-nil bs))) (omega arith) (omega arith)).0
