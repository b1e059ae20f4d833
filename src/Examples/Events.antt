-- ===== src/Examples/Events.antt =====
-- The loss of power, and another event, in `io_event` (src/main.c), over a toy SDK whose state is the
-- event and the number of statuses sent.
use app_sia_x.Base.{ℕ, ◌+◌, ◌≡◌, refl, true, ltb, [], ◌∷◌, Bytes, replicate, ok, throw, pure}
use app_sia_x.Seproxyhal.{Hal, power_lost, on_status_event, on_event, close_event, io_event}
use app_sia_x.Examples.Toy.{toy}

abbrev toy_hal : Hal (Bytes × ℕ)
toy_hal = record {
  finger_event = 12;
  button_push_event = 5;
  status_event = 21;
  display_processed_event = 13;
  ticker_event = 14;
  usb_powered = 8;
  exception_io_reset = 16;
  spi_buffer = λ w. w.0;
  over_usb_hid = λ w. true;
  ux_finger_event = pure tt;
  ux_button_push_event = pure tt;
  ux_default_event = pure tt;
  ux_displayed_event = pure tt;
  ux_ticker_event = pure tt;
  is_status_sent = λ w. ltb 0 w.1;
  general_status = λ w. (w.0, w.1 + 1);
  channel_keyboard = 1;
  channel_spi = 2;
  io_flags = 248;
  io_reset_after_replied = 128;
  invalid_parameter = 2;
  apdu_buffer = λ w. [];
  spi_send = λ bs w. w;
  spi_recv = λ w. (0, w);
  reset = λ w. w;
}

-- A press of a button.
abbrev push : Bytes × ℕ
push = (5 ∷ 0 ∷ 1 ∷ 3 ∷ 0 ∷ 0 ∷ 0 ∷ [], 0)

push_returns : (io_event toy toy_hal push).0 ≡ ok 1
unfolding io_event on_event close_event
push_returns = refl

-- A status event without the power flag.
unplugged : (io_event toy toy_hal (21 ∷ 0 ∷ 4 ∷ replicate 4 0, 0)).0 ≡ throw 16
unfolding io_event on_event on_status_event power_lost
unplugged = refl
