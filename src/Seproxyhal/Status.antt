-- ===== src/Seproxyhal/Status.antt =====
-- Every event is closed by one status, and the loss of power resets the transport (src/main.c).
use app_sia_x.Base.{
  ℕ, ◌+◌, ◌≤◌, ◌≡◌, ◌≢◌, ◌⊎◌, true, ltb, bit_and, be_value, byte_at, length, take, drop, Result, ok,
  throw, stuck,
}
use app_sia_x.Sdk.{Sdk, IsSdk}
use app_sia_x.Seproxyhal.{Hal, on_event}

-- The SDK as documented, where `statuses` counts the statuses sent for an event: it knows whether one
-- has been sent, a general status is one, a handler sends one at most, and the tags differ.
pub record IsHal {W : Type 0} (hal : Hal W) (statuses : W → ℕ) : Type 0 where
  pub knows : (w : W) → hal.is_status_sent w ≡ ltb 0 (statuses w)
  pub counts : (w : W) → statuses (hal.general_status w) ≡ statuses w + 1
  pub finger : (w : W) → statuses w ≡ 0 → statuses (hal.ux_finger_event w).1 ≤ 1
  pub button_push : (w : W) → statuses w ≡ 0 → statuses (hal.ux_button_push_event w).1 ≤ 1
  pub default_event : (w : W) → statuses w ≡ 0 → statuses (hal.ux_default_event w).1 ≤ 1
  pub displayed : (w : W) → statuses w ≡ 0 → statuses (hal.ux_displayed_event w).1 ≤ 1
  pub ticker : (w : W) → statuses w ≡ 0 → statuses (hal.ux_ticker_event w).1 ≤ 1
  pub finger_tag : hal.finger_event ≢ hal.status_event
  pub button_tag : hal.button_push_event ≢ hal.status_event

module _ {C W : Type 0} (sdk : Sdk C) (laws : IsSdk sdk) (hal : Hal W) (statuses : W → ℕ)
    (good : IsHal hal statuses) where
  -- A status event that comes over USB and says that there is no power.
  abbrev pub IsUnplugged : W → Type 0
  IsUnplugged w =
      (byte_at (hal.spi_buffer w) 0 ≡ hal.status_event)
      × (hal.over_usb_hid w ≡ true)
      × (bit_and (be_value (take 4 (drop 3 (hal.spi_buffer w)))) hal.usb_powered ≡ 0)

  -- An event that is handled returns 1 behind one status. A handler may throw, before a second one.
  abbrev pub IsClosed : Result ℕ ℕ × W → Type 0
  IsClosed (ok v, w) = (v ≡ 1) × (statuses w ≡ 1)
  IsClosed (throw _, w) = statuses w ≤ 1
  IsClosed (stuck, w) = statuses w ≤ 1

  -- The test on a status event reads the flags of the event.
  module _ (w : W) (whole : 7 ≤ length (hal.spi_buffer w)) (fresh : statuses w ≡ 0) where
    abbrev flags : ℕ
    flags = bit_and (be_value (take 4 (drop 3 (hal.spi_buffer w)))) hal.usb_powered

    -- How an event that has begun without a status is handled.
    abbrev Handled : ℕ → Type 0
    Handled tag =
        ((tag ≡ hal.status_event)
          × (hal.over_usb_hid w ≡ true)
          × (flags ≡ 0)
          × (on_event sdk hal tag w ≡ (throw hal.exception_io_reset, w)))
        ⊎ (¬ ((tag ≡ hal.status_event) × (hal.over_usb_hid w ≡ true) × (flags ≡ 0))
            × (statuses (on_event sdk hal tag w).1 ≤ 1))
