-- ===== src/Seproxyhal.antt =====
-- The events and the transport of src/main.c: `io_event` and `io_exchange_al`. The state of the SDK
-- and its calls are parameters, over a type `W` of states.
pub mod Status
use app_sia_x.Base.{
  ℕ, ◌-◌, Bool, not, ◌&&◌, ◌==◌, if◌then◌else◌, Bytes, bit_and, byte_at, take, Action, ok, pure,
  raise, ◌>>◌,
}
use app_sia_x.Sdk.{Sdk}

pub record Hal (W : Type 0) : Type 0 where
  -- SEPROXYHAL_TAG_FINGER_EVENT and so on
  pub finger_event : ℕ
  pub button_push_event : ℕ
  pub status_event : ℕ
  pub display_processed_event : ℕ
  pub ticker_event : ℕ
  -- SEPROXYHAL_TAG_STATUS_EVENT_FLAG_USB_POWERED
  pub usb_powered : ℕ
  pub exception_io_reset : ℕ
  -- `G_io_seproxyhal_spi_buffer`, and `G_io_apdu_media == IO_APDU_MEDIA_USB_HID`
  pub spi_buffer : W → Bytes
  pub over_usb_hid : W → Bool
  -- UX_FINGER_EVENT and so on, which may THROW
  pub ux_finger_event : Action W ℕ (Unit {0})
  pub ux_button_push_event : Action W ℕ (Unit {0})
  pub ux_default_event : Action W ℕ (Unit {0})
  pub ux_displayed_event : Action W ℕ (Unit {0})
  pub ux_ticker_event : Action W ℕ (Unit {0})
  -- `io_seproxyhal_spi_is_status_sent` and `io_seproxyhal_general_status`
  pub is_status_sent : W → Bool
  pub general_status : W → W
  -- CHANNEL_KEYBOARD and CHANNEL_SPI, IO_FLAGS, IO_RESET_AFTER_REPLIED and INVALID_PARAMETER
  pub channel_keyboard : ℕ
  pub channel_spi : ℕ
  pub io_flags : ℕ
  pub io_reset_after_replied : ℕ
  pub invalid_parameter : ℕ
  -- `G_io_apdu_buffer`, and the calls that send it, fill it, and reset the device
  pub apdu_buffer : W → Bytes
  pub spi_send : Bytes → W → W
  pub spi_recv : W → ℕ × W
  pub reset : W → W

module _ {C W : Type 0} (sdk : Sdk C) (hal : Hal W) where
  -- The test on a status event.
  unfoldable pub power_lost : W → Bool
  power_lost w =
      hal.over_usb_hid w && (bit_and (sdk.u4_be (hal.spi_buffer w) 3) hal.usb_powered == 0)

  unfoldable pub on_status_event : Action W ℕ (Unit {0})
  on_status_event w =
      if power_lost w then raise hal.exception_io_reset w else hal.ux_default_event w

  -- The `switch` on the event's tag.
  unfoldable pub on_event : ℕ → Action W ℕ (Unit {0})
  on_event tag w =
      if tag == hal.finger_event
      then hal.ux_finger_event w
      else if tag == hal.button_push_event
      then hal.ux_button_push_event w
      else if tag == hal.status_event
      then on_status_event w
      else if tag == hal.display_processed_event
      then hal.ux_displayed_event w
      else if tag == hal.ticker_event
      then hal.ux_ticker_event w
      else hal.ux_default_event w

  -- `if (!io_seproxyhal_spi_is_status_sent()) { io_seproxyhal_general_status(); }`
  unfoldable pub close_event : Action W ℕ (Unit {0})
  close_event w = (ok tt, if not (hal.is_status_sent w) then hal.general_status w else w)

  unfoldable pub io_event : Action W ℕ ℕ
  io_event w = (on_event (byte_at (hal.spi_buffer w) 0) >> (close_event >> pure 1)) w

module _ {W : Type 0} (hal : Hal W) where
  -- `io_seproxyhal_spi_send`, and the reset that the channel may ask for.
  unfoldable pub send_apdu : ℕ → ℕ → W → W
  send_apdu channel tx_len w =
      let w' = hal.spi_send (take tx_len (hal.apdu_buffer w)) w in
      if not (bit_and channel hal.io_reset_after_replied == 0) then hal.reset w' else w'

  unfoldable pub recv_apdu : Action W ℕ ℕ
  recv_apdu w = let (rx_len, w') = hal.spi_recv w in (ok rx_len, w')

  -- `channel` is an `unsigned char`, and IO_FLAGS are bits of it.
  unfoldable pub io_exchange_al : ℕ → ℕ → Action W ℕ ℕ
  io_exchange_al channel tx_len w =
      let target = bit_and channel (255 - hal.io_flags) in
      if target == hal.channel_keyboard
      then pure 0 w
      else if target == hal.channel_spi
      then (if not (tx_len == 0) then pure 0 (send_apdu channel tx_len w) else recv_apdu w)
      else raise hal.invalid_parameter w
