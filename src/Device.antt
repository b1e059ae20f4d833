-- ===== src/Device.antt =====
-- What the commands share: the APDU buffer, the responses sent and the screen shown (src/main.c),
-- around the context of the running command (src/sia_ux.h). The calls of the SDK that send bytes
-- and show screens are recorded, not modelled further.
pub mod Contexts
pub mod Replies
use app_sia_x.Base.{
  ℕ, ◌+◌, ◌/◌, ◌^◌, Bool, true, [], ◌∷◌, ◌++◌, List, Bytes, bit_and, u8, take, write,
}
use app_sia_x.Codes.{sw_user_rejected}
use Contexts.{CalcTxnHashContext}

-- The flows that the app starts: the menus, and those of src/calcTxnHash.c, src/getPublicKey.c and
-- src/signHash.c.
pub data Screen : Type 0 where
  menu_main menu_about show_txn_elem compare_hash sign_txn approve_pk compare_pk approve_hash :
      Screen

-- `apdu` is `G_io_apdu_buffer`, `sent` the response APDUs in order, `asynch` the flag
-- IO_ASYNCH_REPLY.
pub record Device (C : Type 0) : Type 0 where
  pub ctx : CalcTxnHashContext C
  pub apdu : Bytes
  pub asynch : Bool
  pub sent : List Bytes
  pub screen : Screen

module _ {C : Type 0} where
  unfoldable pub io_exchange_with_code : ℕ → ℕ → Device C → Device C
  io_exchange_with_code code tx d =
      let high = write d.apdu tx (u8 (code / 2 ^ 8) ∷ []) in
      let apdu = write high (tx + 1) (bit_and code 0xFF ∷ []) in
      record d { apdu = apdu; sent = d.sent ++ take (tx + 2) apdu ∷ [] }

  -- `ux_flow_init`
  unfoldable pub show_flow : Screen → Device C → Device C
  show_flow screen d = record d { screen = screen }

  unfoldable pub ui_idle : Device C → Device C
  ui_idle d = show_flow menu_main d

  unfoldable pub ui_menu_about : Device C → Device C
  ui_menu_about d = show_flow menu_about d

  -- `*flags |= IO_ASYNCH_REPLY`
  unfoldable pub reply_later : Device C → Device C
  reply_later d = record d { asynch = true }

  unfoldable pub io_seproxyhal_cancel : Device C → Device C
  io_seproxyhal_cancel d = ui_idle (io_exchange_with_code sw_user_rejected 0 d)
