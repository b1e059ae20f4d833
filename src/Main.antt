-- ===== src/Main.antt =====
-- The main loop (src/main.c) and the getVersion command (src/getVersion.c).
pub mod Words
pub mod Refusals
pub mod Safe
pub mod Press
pub mod Reach
use app_sia_x.Base.{
  ℕ, ◌+◌, ◌-◌, ◌/◌, ◌^◌, Bool, true, false, not, ◌||◌, ◌==◌, if◌then◌else◌, [], ◌∷◌, ◌++◌, Bytes,
  bit_and, bit_or, byte_at, u8, u16, take, drop, write, length, Action, Result, ok, throw, stuck,
  Option, none, some, raise,
}
use app_sia_x.Sdk.{Sdk}
use app_sia_x.Codes.{sw_ok}
use app_sia_x.Device.Contexts.{Layout}
use app_sia_x.Device.{Device, io_exchange_with_code, ui_idle}
use app_sia_x.SignHash.{handle_sign_hash}
use app_sia_x.PublicKey.{handle_get_public_key}
use app_sia_x.Calc.Handler.{handle_calc_txn_hash}

-- `APPVERSION[i] - '0'`. `version` is `APPVERSION`, which the build defines, of the form "x.y.z".
abbrev pub version_digit : Bytes → ℕ → ℕ
version_digit version i = u8 (byte_at version i + 2 ^ 8 - b'0')

unfoldable pub handle_get_version : {C : Type 0} → Bytes → Device C → Device C
handle_get_version version d =
    let digits = version_digit version 0 ∷ version_digit version 2 ∷ version_digit version 4 ∷ [] in
    io_exchange_with_code sw_ok 3 (record d { apdu = write d.apdu 0 digits })

pub data Handler : Type 0 where
  get_version get_public_key sign_hash calc_txn_hash : Handler

unfoldable pub lookup_handler : ℕ → Option Handler
lookup_handler ins =
    if ins == 0x01
    then some get_version
    else if ins == 0x02
    then some get_public_key
    else if ins == 0x04
    then some sign_hash
    else if ins == 0x08
    then some calc_txn_hash
    else none

abbrev pub cla : ℕ
cla = 0xE0

-- `sw` of an exception
unfoldable pub status_word : ℕ → ℕ
status_word e =
    let class = bit_and e 0xF000 in
    if (class == 0x6000) || (class == 0x9000) then u16 e else u16 (bit_or 0x6800 (bit_and e 0x7FF))

module _ {C : Type 0} where
  -- `io_exchange` on its way in: the packet, and `flags = 0`.
  unfoldable pub receive : Bytes → Device C → Device C
  receive packet d = record d { apdu = write d.apdu 0 packet; asynch = false }

  -- `io_exchange(CHANNEL_APDU | flags, rx)` on its way out, with `tx` bytes to send: nothing under
  -- IO_ASYNCH_REPLY, or with no bytes.
  unfoldable pub send_reply : ℕ → Device C → Device C
  send_reply tx d =
      if d.asynch || (tx == 0) then d else record d { sent = d.sent ++ take tx d.apdu ∷ [] }

  -- `G_io_apdu_buffer[tx++] = sw >> 8; G_io_apdu_buffer[tx++] = sw & 0xFF;` at `tx` 0
  unfoldable pub store_word : ℕ → Device C → Device C
  store_word sw d =
      let high = write d.apdu 0 (u8 (sw / 2 ^ 8) ∷ []) in
      record d { apdu = write high 1 (bit_and sw 0xFF ∷ []) }

  -- `CATCH_OTHER(e)`, and the `io_exchange` of the next round up to where it waits. No handler sets
  -- `tx`, so it is 0 unless there was an exception.
  unfoldable pub catch_other :
      {E : Type 0} → Result ℕ (Unit {0}) × Device C → Result E (Unit {0}) × Device C
  catch_other (ok _, d) = (ok tt, send_reply 0 d)
  catch_other (throw e, d) = (ok tt, send_reply 2 (store_word (status_word e) d))
  catch_other (stuck, d) = (stuck, d)

  -- `global.calcTxnHashContext.initialized = false; tx = 0; flags = 0;`
  unfoldable pub sia_start : Device C → Device C
  sia_start d = record d { ctx = record d.ctx { initialized = false }; asynch = false }

  -- What `main` does on EXCEPTION_IO_RESET, but for the SDK's own initialisation.
  unfoldable pub restart : Device C → Device C
  restart d = sia_start (ui_idle d)

-- The one exception that ends the loop.
pub data IoReset : Type 0 where
  io_reset : IoReset

module _ {C : Type 0} (layout : Layout C) (sdk : Sdk C) (version : Bytes) where
  unfoldable pub call : Handler → ℕ → ℕ → Bytes → ℕ → Action (Device C) ℕ (Unit {0})
  call get_version p1 p2 buf len d = (ok tt, handle_get_version version d)
  call get_public_key p1 p2 buf len d = handle_get_public_key layout sdk p2 buf d
  call sign_hash p1 p2 buf len d = (ok tt, handle_sign_hash sdk layout buf d)
  call calc_txn_hash p1 p2 buf len d = handle_calc_txn_hash sdk p1 p2 buf len d

  unfoldable pub call_handler : Option Handler → Action (Device C) ℕ (Unit {0})
  unfolding call
  call_handler none d = raise 0x6D00 d
  call_handler (some handler) d =
      call handler (byte_at d.apdu 2) (byte_at d.apdu 3) (drop 5 d.apdu) (byte_at d.apdu 4) d

  -- The tests on the packet, and the call of its handler.
  unfoldable pub dispatch : Action (Device C) ℕ (Unit {0})
  unfolding call_handler
  dispatch d =
      let handled = call_handler (lookup_handler (byte_at d.apdu 1)) d in
      if not (byte_at d.apdu 0 == cla) then raise 0x6E00 d else handled

  -- One round of `sia_main`, from the packet that `io_exchange` receives to the next wait.
  unfoldable pub sia_round : Bytes → Action (Device C) IoReset (Unit {0})
  sia_round packet d =
      let d' = receive packet d in
      let handled = catch_other (dispatch d') in
      if length packet == 0 then raise io_reset d' else handled
