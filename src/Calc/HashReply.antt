-- ===== src/Calc/HashReply.antt =====
-- The hash of a transaction that is not to be signed (src/calcTxnHash.c): what is sent is what is
-- shown.
use app_sia_x.Base.{
  ◌≤◌, ◌≡◌, refl, ap, ◌∙◌, arith, [], ◌∷◌, ◌++◌, Bytes, All, IsByte, length, length-append, take,
  take_whole, take-write_start, write,
}
use app_sia_x.Codes.{sw_ok}
use app_sia_x.Bin2Hex.{bin2hex}
use app_sia_x.Bin2Hex.RoundTrip.{hex_text, length-hex_text, bin2hex-eq-write, unhex, unhex-hex_text}
use app_sia_x.Device.{Device, compare_hash, io_exchange_with_code, show_flow}
use app_sia_x.Device.Replies.{word_bytes, stored-sends}
use app_sia_x.Calc.Handler.{send_hash}

-- The text of 32 bytes and its NUL, at the front of an array.
shown_hash :
    (a hash : Bytes)
    → length hash ≡ 32
    → 65 ≤ length a
    → take 65 (bin2hex a 0 hash 32) ≡ hex_text hash ++ 0 ∷ []
shown_hash a hash e room =
    let text = hex_text hash ++ 0 ∷ [] in
    let size : 65 ≡ length text =
      omega (arith, length-append (hex_text hash) (0 ∷ []), length-hex_text hash, e) in
    ap (take 65) (
      bin2hex-eq-write a 0 hash 32 (omega (arith, e))
      ∙ ap (λ b. write a 0 (hex_text b ++ 0 ∷ [])) (take_whole 32 hash e))
    ∙ ap (λ n. take n (write a 0 text)) size
    ∙ take-write_start a text (omega (arith, size))

-- At the end of a session without a signature the response is the 32 bytes of `sigHash` and SW_OK,
-- and the screen shows, NUL-terminated, the hexadecimal text of the very same bytes. This holds for
-- a hash of 32 bytes, a text array of 65 and an APDU buffer of 34 at least.
pub send_hash_lem :
    {C : Type 0} (d : Device C)
    → length d.ctx.txn.sig_hash ≡ 32
    → All IsByte d.ctx.txn.sig_hash
    → 65 ≤ length d.ctx.full_str
    → 34 ≤ length d.apdu
    → ((send_hash d).sent ≡ d.sent ++ (d.ctx.txn.sig_hash ++ word_bytes sw_ok) ∷ [])
      × ((send_hash d).screen ≡ compare_hash)
      × (text : Bytes) × (take 65 (send_hash d).ctx.full_str ≡ text ++ 0 ∷ [])
      × (unhex text ≡ d.ctx.txn.sig_hash)
unfolding send_hash io_exchange_with_code show_flow
send_hash_lem d size bytes text_room room =
    let hash = d.ctx.txn.sig_hash in
    (
      ap (λ h. (io_exchange_with_code sw_ok 32 (record d { apdu = write d.apdu 0 h })).sent)
            (take_whole 32 hash size)
          ∙ stored-sends sw_ok 32 hash d size room,
      refl,
      hex_text hash,
      shown_hash d.ctx.full_str hash size text_room,
      unhex-hex_text hash bytes,
    )
