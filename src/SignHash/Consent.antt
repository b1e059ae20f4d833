-- ===== src/SignHash/Consent.antt =====
-- The signHash command (src/signHash.c): what is signed is what is shown.
use app_sia_x.Base.{
  ◌^◌, ◌≤◌, ◌<◌, ◌≡◌, refl, ap, ◌∙◌, sym, arith, [], ◌∷◌, ◌++◌, Bytes, All, IsByte,
  le_value-lt_word, length, length-take, length-drop, take, drop, write, write_whole, write_clip,
  take-take,
}
use app_sia_x.Sdk.{Sdk, IsSdk}
use app_sia_x.Codes.{sw_ok}
use app_sia_x.Bin2Hex.{bin2hex}
use app_sia_x.Bin2Hex.RoundTrip.{hex_text, length-hex_text, bin2hex-eq-write, unhex, unhex-hex_text}
use app_sia_x.Keys.{KeySdk, IsKeySdk, derive_and_sign}
use app_sia_x.Keys.Signature.{length-derive_and_sign}
use app_sia_x.Device.Contexts.{SignHashContext, IsSignHashContext, IsUnion, Layout, IsLayout}
use app_sia_x.Device.{approve_hash, Device, show_flow, ui_idle, reply_later}
use app_sia_x.Device.Replies.{word_bytes, stored-sends}
use app_sia_x.SignHash.{read_hash_request, handle_sign_hash, touch_hash_ok}

-- The parts of a request.
abbrev pub requested_hash : Bytes → Bytes
requested_hash buffer = take 32 (drop 4 buffer)

module _ {C : Type 0} (sdk : Sdk C) (laws : IsSdk sdk) where
  module _ (buffer : Bytes) (long : 36 ≤ length buffer) (bytes : All IsByte (take 4 buffer)) where
    key_range : sdk.u4_le buffer 0 < 2 ^ 32
    key_range =
        rw (laws.u4_le_reads buffer 0 (omega arith))
          (le_value-lt_word (take 4 buffer) (omega (arith, length-take {0} 4 buffer)) bytes)

    length-requested_hash : length (requested_hash buffer) ≡ 32
    length-requested_hash =
        omega (arith, length-take {0} 32 (drop 4 buffer), length-drop {0} 4 buffer)

    -- The request is stored as it is, and shown as text that fills the array.
    read_hash_request_lem :
        (h : SignHashContext)
        → IsSignHashContext h
        → read_hash_request sdk buffer h ≡ record {
          key_index = sdk.u4_le buffer 0;
          hash = requested_hash buffer;
          hex_hash = hex_text (requested_hash buffer);
        }
    unfolding read_hash_request
    read_hash_request_lem h sizes =
        let hash = requested_hash buffer in
        let stored : write h.hash 0 hash ≡ hash =
          write_whole h.hash hash (length-requested_hash ∙ sym sizes.hash_size) in
        let e : take 32 hash ≡ hash = take-take 32 32 (drop 4 buffer) (omega arith) in
        let text : bin2hex h.hex_hash 0 hash 32 ≡ hex_text hash =
          bin2hex-eq-write h.hex_hash 0 hash 32 (omega (arith, length-requested_hash))
          ∙ ap (λ b. write h.hex_hash 0 (hex_text b ++ 0 ∷ [])) e
          ∙ write_clip h.hex_hash (hex_text hash) (0 ∷ [])
              (omega (arith, length-hex_text hash, length-requested_hash, sizes.hex_size)) in
        rw (stored, text) refl

  module _ {K : Type 0} (layout : Layout C) (fits : IsLayout layout) (keys : KeySdk K)
      (signs : IsKeySdk keys) where
    -- A request of four bytes of key index and 32 bytes of hash puts the hash on the screen in
    -- hexadecimal and sends nothing. If the user approves before another packet comes, the response
    -- is the signature, by the key of that index, of the very hash that the screen shows, and the
    -- status word SW_OK. This holds for an SDK and a layout as documented, a buffer of 66 bytes at
    -- least, and a request of bytes.
    pub sign_hash_consent :
        (buffer : Bytes) (d : Device C)
        → 36 ≤ length buffer
        → All IsByte (take 4 buffer)
        → All IsByte (requested_hash buffer)
        → IsUnion d.ctx
        → 66 ≤ length d.apdu
        → let asked = handle_sign_hash sdk layout buffer d in
          let hash = unhex (layout.as_sign_hash asked.ctx).hex_hash in
          (asked.screen ≡ approve_hash)
          × (asked.sent ≡ d.sent)
          × (hash ≡ requested_hash buffer)
          × ((touch_hash_ok layout keys asked).sent
              ≡ d.sent ++ (derive_and_sign keys (sdk.u4_le buffer 0) hash ++ word_bytes sw_ok) ∷ [])
    unfolding handle_sign_hash touch_hash_ok reply_later show_flow ui_idle
    sign_hash_consent buffer d long index_bytes bytes union room =
        let hash = requested_hash buffer in
        let view = layout.as_sign_hash d.ctx in
        let e =
          read_hash_request_lem buffer long index_bytes view (fits.typed_sign_hash d.ctx union) in
        let stored : IsSignHashContext (read_hash_request sdk buffer view) = rw e (record {
          key_range = key_range buffer long index_bytes;
          hash_size = length-requested_hash buffer long index_bytes;
          hex_size =
              omega (arith, length-hex_text hash, length-requested_hash buffer long index_bytes);
        }) in
        let back =
          fits.reads_sign_hash (read_hash_request sdk buffer view) d.ctx stored union ∙ e in
        let shown = unhex-hex_text hash bytes in
        let signature = derive_and_sign keys (sdk.u4_le buffer 0) hash in
        let size : length signature ≡ 64 =
          length-derive_and_sign keys signs (sdk.u4_le buffer 0) hash
            (length-requested_hash buffer long index_bytes) in
        rw (back, shown)
          (
            refl,
            refl,
            refl,
            stored-sends sw_ok 64 signature (handle_sign_hash sdk layout buffer d) size
                (omega arith),
          )
