-- ===== src/PublicKey.antt =====
-- The getPublicKey command (src/getPublicKey.c).
pub mod Reply
pub mod Request
use app_sia_x.Base.{
  ℕ, ◌+◌, Bool, true, false, not, ◌&&◌, ◌==◌, if◌then◌else◌, [], ◌∷◌, ◌++◌, Bytes, codes, take,
  drop, write, Action, raise, ok,
}
use app_sia_x.Sdk.{Sdk}
use app_sia_x.Codes.{sw_invalid_param, sw_ok}
use app_sia_x.Bin2Dec.{bin2dec}
use app_sia_x.Bin2Hex.{bin2hex}
use app_sia_x.Keys.{KeySdk, derive_sia_keypair, extract_pubkey_bytes, pubkey_to_sia_address}
use app_sia_x.Device.Contexts.{GetPublicKeyContext, Layout}
use app_sia_x.Device.{
  Device, approve_pk, compare_pk, io_exchange_with_code, show_flow, ui_idle, reply_later,
}

abbrev pub p2_display_address : ℕ
p2_display_address = 0x00

abbrev pub p2_display_pubkey : ℕ
p2_display_pubkey = 0x01

-- The words in front of the key's number in `keyStr`, of `off` bytes, and the number with "?".
unfoldable pub name_pk : Bytes → ℕ → GetPublicKeyContext → GetPublicKeyContext
name_pk words off k =
    let (key_str, n) = bin2dec (write k.key_str 0 words) off k.key_index in
    record k { key_str = write key_str (off + n) (codes "?" ++ 0 ∷ []) }

unfoldable pub ask_address : GetPublicKeyContext → GetPublicKeyContext
ask_address k =
    name_pk (codes "from Key #") 10
      (record k { type_str = write k.type_str 0 (codes "Generate Address" ++ 0 ∷ []) })

unfoldable pub ask_pubkey : GetPublicKeyContext → GetPublicKeyContext
ask_pubkey k =
    name_pk (codes "Key #") 5
      (record k { type_str = write k.type_str 0 (codes "Generate Public" ++ 0 ∷ []) })

-- The comparison screen: the address from the APDU buffer, or the key in hexadecimal.
unfoldable pub compare_text : Bytes → GetPublicKeyContext → GetPublicKeyContext
compare_text apdu k =
    let k' = record k { type_str = write k.type_str 0 (codes "Compare:" ++ 0 ∷ []) } in
    record k' {
      full_str =
          if k'.gen_addr
          then write (write k'.full_str 0 (take 76 (drop 32 apdu))) 76 (0 ∷ [])
          else bin2hex k'.full_str 0 (take 32 apdu) 32;
    }

-- The context once the request is read.
unfoldable pub read_pk_request :
    {C : Type 0} → Sdk C → ℕ → Bytes → GetPublicKeyContext → GetPublicKeyContext
read_pk_request sdk p2 buffer k =
    let k' = record k { key_index = sdk.u4_le buffer 0; gen_addr = p2 == p2_display_address } in
    if k'.gen_addr then ask_address k' else ask_pubkey k'

module _ {C : Type 0} (layout : Layout C) (sdk : Sdk C) where
  unfoldable pub handle_get_public_key : ℕ → Bytes → Action (Device C) ℕ (Unit {0})
  handle_get_public_key p2 buffer d =
      let k = read_pk_request sdk p2 buffer (layout.as_public_key d.ctx) in
      if not (p2 == p2_display_address) && not (p2 == p2_display_pubkey)
      then raise sw_invalid_param d
      else (
        ok tt,
        reply_later
            (show_flow approve_pk (ui_idle (record d { ctx = layout.put_public_key k d.ctx }))),
      )

  -- `io_seproxyhal_touch_pk_ok`. `junk` is what the local array of the address computation holds.
  unfoldable pub touch_pk_ok : {K : Type 0} → KeySdk K → Bytes → Device C → Device C
  touch_pk_ok keys junk d =
      let w = (derive_sia_keypair keys (layout.as_public_key d.ctx).key_index).1 in
      let apdu = pubkey_to_sia_address sdk junk (extract_pubkey_bytes d.apdu 0 w) 32 w in
      let d' = io_exchange_with_code sw_ok 108 (record d { apdu = apdu }) in
      let k = compare_text d'.apdu (layout.as_public_key d'.ctx) in
      show_flow compare_pk (record d' { ctx = layout.put_public_key k d'.ctx })
