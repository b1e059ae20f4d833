-- ===== src/Main/Press.antt =====
-- Presses of the buttons on the flows of screens.
use app_sia_x.Base.{ℕ, zero, suc, ◌≡◌, refl, Bytes}
use app_sia_x.Sdk.{Sdk}
use app_sia_x.Keys.{KeySdk}
use app_sia_x.Device.Contexts.{Layout, IsLayout}
use app_sia_x.Device.{
  Screen, menu_main, menu_about, show_txn_elem, compare_hash, sign_txn, approve_pk, compare_pk,
  approve_hash, Device, show_flow, ui_idle, ui_menu_about, io_exchange_with_code,
  io_seproxyhal_cancel,
}
use app_sia_x.Calc.Handler.{touch_txn_hash_ok}
use app_sia_x.Calc.Session.{IsSafe, EndsSafely, press_safely}
use app_sia_x.SignHash.{touch_hash_ok}
use app_sia_x.PublicKey.{touch_pk_ok}
use app_sia_x.Screens.{
  Callback, no_callback, call_idle, call_about, call_exit, call_elem_button, call_txn_hash_ok,
  call_pk_ok, call_hash_ok, call_cancel, callback_at, flow, run_callback, press_step,
}
use app_sia_x.Main.Safe.{Spares-SafeIn, other_screen-SafeIn}

-- The element button stands on one screen only.
elem_button_at :
    {C : Type 0} (layout : Layout C) (version : Bytes) (s : Screen) (d : Device C) (i : ℕ)
    → callback_at (flow layout version s d) i ≡ call_elem_button
    → s ≡ show_txn_elem
unfolding flow
elem_button_at layout version show_txn_elem d i e = refl
elem_button_at layout version menu_main d zero e = cc
elem_button_at layout version menu_main d (suc zero) e = cc
elem_button_at layout version menu_main d (suc (suc zero)) e = cc
elem_button_at layout version menu_main d (suc (suc (suc i))) e = cc
elem_button_at layout version menu_about d zero e = cc
elem_button_at layout version menu_about d (suc zero) e = cc
elem_button_at layout version menu_about d (suc (suc i)) e = cc
elem_button_at layout version compare_hash d zero e = cc
elem_button_at layout version compare_hash d (suc i) e = cc
elem_button_at layout version compare_pk d zero e = cc
elem_button_at layout version compare_pk d (suc i) e = cc
elem_button_at layout version sign_txn d zero e = cc
elem_button_at layout version sign_txn d (suc zero) e = cc
elem_button_at layout version sign_txn d (suc (suc zero)) e = cc
elem_button_at layout version sign_txn d (suc (suc (suc i))) e = cc
elem_button_at layout version approve_pk d zero e = cc
elem_button_at layout version approve_pk d (suc zero) e = cc
elem_button_at layout version approve_pk d (suc (suc zero)) e = cc
elem_button_at layout version approve_pk d (suc (suc (suc i))) e = cc
elem_button_at layout version approve_hash d zero e = cc
elem_button_at layout version approve_hash d (suc zero) e = cc
elem_button_at layout version approve_hash d (suc (suc zero)) e = cc
elem_button_at layout version approve_hash d (suc (suc (suc i))) e = cc

module _ {C K : Type 0} (layout : Layout C) (laws : IsLayout layout) (sdk : Sdk C) (keys : KeySdk K)
    (version : Bytes) where
  -- A press calls the decoder only on its own screen.
  run_safely :
      (c : Callback) (junk : Bytes) (d : Device C)
      → (c ≡ call_elem_button → d.screen ≡ show_txn_elem)
      → IsSafe d
      → EndsSafely (run_callback layout version sdk keys junk c d)
  unfolding run_callback touch_txn_hash_ok touch_pk_ok touch_hash_ok io_seproxyhal_cancel
      ui_menu_about ui_idle show_flow io_exchange_with_code
  run_safely no_callback junk d shown h = (λ e. cc, h)
  run_safely call_idle junk d shown h =
      (λ e. cc, other_screen-SafeIn d.ctx d.screen menu_main (λ e. cc) h)
  run_safely call_about junk d shown h =
      (λ e. cc, other_screen-SafeIn d.ctx d.screen menu_about (λ e. cc) h)
  run_safely call_exit junk d shown h = (λ e. cc, h)
  run_safely call_elem_button junk d shown h = press_safely sdk keys d (shown refl) h
  run_safely call_txn_hash_ok junk d shown h =
      (λ e. cc, other_screen-SafeIn d.ctx d.screen menu_main (λ e. cc) h)
  run_safely call_pk_ok junk d shown h = (
    λ e. cc,
    Spares-SafeIn d.ctx _ d.screen compare_pk (laws.spares_public_key _ d.ctx) (λ e. cc) h,
  )
  run_safely call_hash_ok junk d shown h =
      (λ e. cc, other_screen-SafeIn d.ctx d.screen menu_main (λ e. cc) h)
  run_safely call_cancel junk d shown h =
      (λ e. cc, other_screen-SafeIn d.ctx d.screen menu_main (λ e. cc) h)

  pub press_step_safely :
      (i : ℕ) (junk : Bytes) (d : Device C)
      → IsSafe d
      → EndsSafely (press_step layout version sdk keys junk i d)
  unfolding press_step
  press_step_safely i junk d h =
      run_safely (callback_at (flow layout version d.screen d) i) junk d
        (elem_button_at layout version d.screen d i) h
