-- ===== src/PublicKey/Reply.antt =====
-- The getPublicKey command (src/getPublicKey.c): what is sent, and what is shown.
use app_sia_x.Base.{
  ◌+◌, ◌≤◌, ◌≡◌, refl, ap, ◌∙◌, sym, arith, Bool, true, false, [], ◌∷◌, ◌++◌, append_assoc,
  if◌then◌else◌, Bytes, codes, length, length-append, length-write, take, drop, take-append_self,
  write, write_after, take-write_start, drop-take, take-take, Bool-cases, inl, inr,
}
use app_sia_x.Sdk.{Sdk, IsSdk}
use app_sia_x.Codes.{sw_ok}
use app_sia_x.Bin2Hex.RoundTrip.{hex_text, length-hex_text, bin2hex-eq-write}
use app_sia_x.Keys.{KeySdk, derive_sia_keypair, extract_pubkey_bytes, pubkey_to_sia_address}
use app_sia_x.Keys.Pubkey.{sia_pubkey, extract_pubkey_bytes-eq-write}
use app_sia_x.Keys.Address.{address_text, length-address_text, pubkey_to_sia_address-eq-write}
use app_sia_x.Device.Contexts.{
  GetPublicKeyContext, IsGetPublicKeyContext, IsUnion, Layout, IsLayout,
}
use app_sia_x.Device.{compare_pk, Device, io_exchange_with_code, show_flow}
use app_sia_x.Device.Replies.{word_bytes, io_exchange_with_code-sends}
use app_sia_x.PublicKey.{compare_text, touch_pk_ok}

module _ {C : Type 0} (sdk : Sdk C) (laws : IsSdk sdk) where
  -- The response: the key and its address.
  abbrev pub pk_response : Bytes → Bytes
  pk_response w = sia_pubkey w ++ address_text sdk laws w

  -- What the comparison screen shows.
  abbrev pub compared : Bool → Bytes → Bytes
  compared gen_addr w = if gen_addr then address_text sdk laws w else hex_text (sia_pubkey w)

  module _ (w a : Bytes) (room : 110 ≤ length a) where
    length-pk_response : length (pk_response w) ≡ 108
    length-pk_response = omega (
      arith,
      length-append (sia_pubkey w) (address_text sdk laws w),
      length-address_text sdk laws w,
    )

    filled :
        (junk : Bytes)
        → length junk ≡ 65
        → pubkey_to_sia_address sdk junk (extract_pubkey_bytes a 0 w) 32 w
          ≡ write a 0 (pk_response w ++ 0 ∷ [])
    filled junk size =
        ap (λ b. pubkey_to_sia_address sdk junk b 32 w)
          (extract_pubkey_bytes-eq-write a 0 w (omega arith))
        ∙ pubkey_to_sia_address-eq-write sdk laws junk (write a 0 (sia_pubkey w)) 32 w size
        ∙ write_after a 0 (sia_pubkey w) (address_text sdk laws w ++ 0 ∷ [])
        ∙ ap (write a 0) (sym (append_assoc (sia_pubkey w) (address_text sdk laws w) (0 ∷ [])))

    -- The parts of the response, read back from the APDU buffer.
    abbrev apdu : Bytes
    apdu = write a 0 (pk_response w ++ word_bytes sw_ok)

    prefix : take 110 apdu ≡ sia_pubkey w ++ (address_text sdk laws w ++ word_bytes sw_ok)
    prefix =
        let e : 110 ≡ length (pk_response w ++ word_bytes sw_ok) =
          omega (arith, length-append (pk_response w) (word_bytes sw_ok), length-pk_response) in
        ap (λ n. take n apdu) e
        ∙ take-write_start a (pk_response w ++ word_bytes sw_ok) (omega (arith, e))
        ∙ append_assoc (sia_pubkey w) (address_text sdk laws w) (word_bytes sw_ok)

    key_part : take 32 apdu ≡ sia_pubkey w
    key_part = sym (take-take 32 110 apdu (omega arith)) ∙ ap (take 32) prefix

    address_part : take 76 (drop 32 apdu) ≡ address_text sdk laws w
    address_part =
        sym (take-take 76 78 (drop 32 apdu) (omega arith))
        ∙ ap (take 76) (sym (drop-take 32 110 apdu) ∙ ap (drop 32) prefix)
        ∙ ap (λ n. take n (address_text sdk laws w ++ word_bytes sw_ok))
            (sym (length-address_text sdk laws w))
        ∙ take-append_self (address_text sdk laws w) (word_bytes sw_ok)

    compare_text_lem :
        (k : GetPublicKeyContext)
        → (compare_text apdu k).full_str ≡ write k.full_str 0 (compared k.gen_addr w ++ 0 ∷ [])
    unfolding compare_text
    compare_text_lem k = elim (Bool-cases k.gen_addr) [
      | inl e ↦
          let size : 76 ≡ 0 + length (address_text sdk laws w) =
            omega (arith, length-address_text sdk laws w) in
          simp (e, address_part)
            (ap (λ n. write (write k.full_str 0 (address_text sdk laws w)) n (0 ∷ [])) size
              ∙ write_after k.full_str 0 (address_text sdk laws w) (0 ∷ []))
      | inr e ↦ simp (e, key_part) (bin2hex-eq-write k.full_str 0 (sia_pubkey w) 32 (omega arith))
    ]

  length-compared : (b : Bool) (w : Bytes) → length (compared b w) ≤ 76
  length-compared true w = omega (arith, length-address_text sdk laws w)
  length-compared false w = omega (arith, length-hex_text (sia_pubkey w))

  -- The comparison screen fills its text in place.
  module _ (w a : Bytes) (room : 110 ≤ length a) (k : GetPublicKeyContext) where
    compare_text-keeps :
        IsGetPublicKeyContext k → IsGetPublicKeyContext (compare_text (apdu w a room) k)
    unfolding compare_text
    compare_text-keeps sizes = record {
      key_range = sizes.key_range;
      type_size = length-write k.type_str 0 (codes "Compare:" ++ 0 ∷ []) ∙ sizes.type_size;
      key_size = sizes.key_size;
      full_size =
          ap length (compare_text_lem w a room k)
          ∙ length-write k.full_str 0 (compared k.gen_addr w ++ 0 ∷ [])
          ∙ sizes.full_size;
    }

    compare_text-shows :
        IsGetPublicKeyContext k
        → take (length (compared k.gen_addr w) + 1) (compare_text (apdu w a room) k).full_str
          ≡ compared k.gen_addr w ++ 0 ∷ []
    compare_text-shows sizes =
        let shown = compared k.gen_addr w in
        let size : length shown + 1 ≡ length (shown ++ 0 ∷ []) =
          omega (arith, length-append shown (0 ∷ [])) in
        ap (take (length shown + 1)) (compare_text_lem w a room k)
        ∙ ap (λ n. take n (write k.full_str 0 (shown ++ 0 ∷ []))) size
        ∙ take-write_start k.full_str (shown ++ 0 ∷ [])
            (omega (arith, size, sizes.full_size, length-compared k.gen_addr w))

  -- What a full buffer becomes once it is sent.
  responded :
      (w : Bytes) (d : Device C) (full : Bytes) (room : 110 ≤ length d.apdu)
      → full ≡ write d.apdu 0 (pk_response w ++ 0 ∷ [])
      → let d' = io_exchange_with_code sw_ok 108 (record d { apdu = full }) in
        (d'.sent ≡ d.sent ++ (pk_response w ++ word_bytes sw_ok) ∷ [])
        × (d'.apdu ≡ apdu w d.apdu room)
  responded w d full room e =
      let size = length-pk_response w d.apdu room in
      rw size at (
        io_exchange_with_code-sends sw_ok d.apdu (pk_response w) (0 ∷ []) (record d { apdu = full })
          e (omega arith) (omega (arith, size)))

  module _ {K : Type 0} (layout : Layout C) (fits : IsLayout layout) (keys : KeySdk K) where
    -- An approval, by the context it finds.
    pub touch_pk_ok_lem :
        (junk : Bytes) (d : Device C)
        → length junk ≡ 65
        → IsUnion d.ctx
        → 110 ≤ length d.apdu
        → let view = layout.as_public_key d.ctx in
          let w = (derive_sia_keypair keys view.key_index).1 in
          let shown = compared view.gen_addr w in
          let done = touch_pk_ok layout sdk keys junk d in
          (done.sent ≡ d.sent ++ (pk_response w ++ word_bytes sw_ok) ∷ [])
          × (done.screen ≡ compare_pk)
          × (take (length shown + 1) (layout.as_public_key done.ctx).full_str ≡ shown ++ 0 ∷ [])
    unfolding touch_pk_ok show_flow io_exchange_with_code
    touch_pk_ok_lem junk d size union room =
        let view = layout.as_public_key d.ctx in
        let w = (derive_sia_keypair keys view.key_index).1 in
        let sizes = fits.typed_public_key d.ctx union in
        let full = pubkey_to_sia_address sdk junk (extract_pubkey_bytes d.apdu 0 w) 32 w in
        let (sent, e) = responded w d full room (filled w d.apdu room junk size) in
        let filled_in = (io_exchange_with_code sw_ok 108 (record d { apdu = full })).apdu in
        let k = compare_text filled_in view in
        let kept : IsGetPublicKeyContext k = rw e (compare_text-keeps w d.apdu room view sizes) in
        let n = length (compared view.gen_addr w) + 1 in
        (
          sent,
          refl,
          ap (λ k. take n k.full_str) (fits.reads_public_key k d.ctx kept union)
              ∙ ap (λ b. take n (compare_text b view).full_str) e
              ∙ compare_text-shows w d.apdu room view sizes,
        )
