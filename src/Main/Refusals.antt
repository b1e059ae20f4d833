-- ===== src/Main/Refusals.antt =====
-- What the main loop (src/main.c) answers to a packet that is for no command, and to exceptions.
use app_sia_x.Base.{
  ℕ, ◌≤◌, ◌<◌, ◌≡◌, refl, ap, ◌∙◌, arith, true, false, ◌==◌, Bytes, byte_at, [], ◌∷◌, ◌++◌, length,
  length-write, take, take-write_start, write_after, none, throw, u8, bit_and,
}
use app_sia_x.Sdk.{Sdk}
use app_sia_x.Device.Contexts.{Layout}
use app_sia_x.Device.{Device}
use app_sia_x.Device.Replies.{word_bytes}
use app_sia_x.Main.{
  IoReset, cla, lookup_handler, status_word, receive, send_reply, store_word, catch_other,
  call_handler, dispatch, sia_round,
}

module _ {C : Type 0} where
  -- An exception is answered with the two bytes of its status word.
  catch_other-sends :
      (e : ℕ) (d : Device C)
      → d.asynch ≡ false
      → 2 ≤ length d.apdu
      → (catch_other {E = IoReset} (throw e, d)).1.sent ≡ d.sent ++ word_bytes (status_word e) ∷ []
  unfolding catch_other send_reply store_word
  catch_other-sends e d now room = rw now (
      ap (λ b. d.sent ++ take 2 b ∷ [])
        (write_after d.apdu 0 (u8 _ ∷ []) (bit_and (status_word e) 0xFF ∷ []))
      ∙ ap (λ b. d.sent ++ b ∷ []) (take-write_start d.apdu (word_bytes (status_word e)) room))

-- A test of the round, for a packet that the loop has received.
module _ {C : Type 0} (layout : Layout C) (sdk : Sdk C) (version packet : Bytes) (d : Device C)
    (some : 0 < length packet) (room : 2 ≤ length d.apdu) where
  answered :
      (e : ℕ)
      → dispatch layout sdk version (receive packet d) ≡ (throw e, receive packet d)
      → (sia_round layout sdk version packet d).1.sent ≡ d.sent ++ word_bytes (status_word e) ∷ []
  unfolding sia_round receive
  answered e run =
      let not_empty : (length packet == 0) ≡ false = ground arith in
      rw (not_empty, run)
        (catch_other-sends e (receive packet d) refl (omega (arith, length-write d.apdu 0 packet)))

  -- A packet of another class is answered with 6E 00, whatever its instruction, and a packet of this
  -- class whose instruction names no command with 6D 00. Nothing else is sent. This holds for a
  -- packet that is not empty and an APDU buffer of two bytes at least.
  pub sia_round-refuses :
      ((byte_at (receive packet d).apdu 0 == cla) ≡ false
        → (sia_round layout sdk version packet d).1.sent ≡ d.sent ++ (0x6E ∷ 0x00 ∷ []) ∷ [])
      × ((byte_at (receive packet d).apdu 0 == cla) ≡ true
          → lookup_handler (byte_at (receive packet d).apdu 1) ≡ none
          → (sia_round layout sdk version packet d).1.sent ≡ d.sent ++ (0x6D ∷ 0x00 ∷ []) ∷ [])
  unfolding dispatch call_handler status_word
  sia_round-refuses = (
    λ other. answered 0x6E00 (rw other refl),
    λ ours unknown. answered 0x6D00 (rw (ours, unknown) refl),
  )
