-- ===== src/SignHash.antt =====
-- The signHash command (src/signHash.c). `bin2hex` stores a NUL behind the 64 bytes of `hexHash`; it
-- lands in a part of the union that this command does not use, and is dropped here.
pub mod Consent
use app_sia_x.Base.{ℕ, ◌+◌, Bytes, take, drop, write, Action, pure, modify, ◌>>=◌, ◌>>◌}
use app_sia_x.Sdk.{Sdk}
use app_sia_x.Codes.{sw_ok}
use app_sia_x.Bin2Hex.{bin2hex}
use app_sia_x.Keys.{KeySdk, derive_and_sign}
use app_sia_x.Device.Contexts.{SignHashContext, Layout}
use app_sia_x.Device.{Device, approve_hash, io_exchange_with_code, show_flow, ui_idle, reply_later}

module _ {C : Type 0} (sdk : Sdk C) where
  -- The key index and the hash of the request, and the hash in hexadecimal.
  unfoldable pub read_hash_request : Bytes → SignHashContext → SignHashContext
  read_hash_request buffer h =
      let hash = write h.hash 0 (take 32 (drop 4 buffer)) in
      record h {
        key_index = sdk.u4_le buffer 0;
        hash = hash;
        hex_hash = bin2hex h.hex_hash 0 hash 32;
      }

  unfoldable pub handle_sign_hash : Layout C → Bytes → Device C → Device C
  handle_sign_hash layout buffer d =
      let h = read_hash_request buffer (layout.as_sign_hash d.ctx) in
      reply_later (show_flow approve_hash (record d { ctx = layout.put_sign_hash h d.ctx }))

-- `io_seproxyhal_touch_hash_ok`
unfoldable pub touch_hash_ok : {C K : Type 0} → Layout C → KeySdk K → Device C → Device C
touch_hash_ok layout keys d =
    let h = layout.as_sign_hash d.ctx in
    let signature = derive_and_sign keys h.key_index h.hash in
    ui_idle (io_exchange_with_code sw_ok 64 (record d { apdu = write d.apdu 0 signature }))
