-- ===== src/Screens.antt =====
-- The flows of screens (src/main.c, src/calcTxnHash.c, src/getPublicKey.c, src/signHash.c): the
-- lines of each step, and what a press of both buttons calls there. The SDK moves between the
-- steps.
use app_sia_x.Base.{ℕ, zero, suc, List, [], ◌∷◌, Bytes, codes, pure, modify}
use app_sia_x.Sdk.{Sdk}
use app_sia_x.Keys.{KeySdk}
use app_sia_x.Device.Contexts.{Layout}
use app_sia_x.Device.{
  Screen, menu_main, menu_about, show_txn_elem, compare_hash, sign_txn, approve_pk, compare_pk,
  approve_hash, Device, ui_idle, ui_menu_about, io_seproxyhal_cancel,
}
use app_sia_x.Calc.Handler.{Command, elem_button, touch_txn_hash_ok}
use app_sia_x.SignHash.{touch_hash_ok}
use app_sia_x.PublicKey.{touch_pk_ok}

-- `no_callback` is UX_STEP_NOCB, the others are the call in UX_STEP_CB or UX_STEP_VALID.
pub data Callback : Type 0 where
  no_callback call_idle call_about call_exit call_elem_button call_txn_hash_ok call_pk_ok : Callback
  call_hash_ok call_cancel : Callback

-- The arrays that hold the lines, each up to its NUL.
pub record FlowStep : Type 0 where
  pub lines : List Bytes
  pub callback : Callback

-- The steps with the icons C_icon_validate and C_icon_crossmark.
abbrev pub approve_step : Callback → FlowStep
approve_step callback = record { lines = codes "Approve" ∷ []; callback = callback }

abbrev pub reject_step : FlowStep
reject_step = record { lines = codes "Reject" ∷ []; callback = call_cancel }

abbrev pub callback_at : List FlowStep → ℕ → Callback
callback_at [] i = no_callback
callback_at (s ∷ steps) zero = s.callback
callback_at (s ∷ steps) (suc i) = callback_at steps i

module _ {C : Type 0} (layout : Layout C) (version : Bytes) where
  abbrev pub menu_main_flow : List FlowStep
  menu_main_flow =
      record { lines = codes "Awaiting" ∷ codes "commands" ∷ []; callback = no_callback }
      ∷ record { lines = codes "About" ∷ []; callback = call_about }
      ∷ record { lines = codes "Quit" ∷ []; callback = call_exit }
      ∷ []

  abbrev pub menu_about_flow : List FlowStep
  menu_about_flow =
      record { lines = codes "Version" ∷ version ∷ []; callback = no_callback }
      ∷ record { lines = codes "Back" ∷ []; callback = call_idle }
      ∷ []

  abbrev pub show_txn_elem_flow : Device C → List FlowStep
  show_txn_elem_flow d =
      record { lines = d.ctx.label_str ∷ d.ctx.full_str ∷ []; callback = call_elem_button } ∷ []

  abbrev pub compare_hash_flow : Device C → List FlowStep
  compare_hash_flow d =
      record { lines = codes "Compare Hash:" ∷ d.ctx.full_str ∷ []; callback = call_idle } ∷ []

  abbrev pub sign_txn_flow : Device C → List FlowStep
  sign_txn_flow d =
      record { lines = codes "Sign this txn" ∷ d.ctx.full_str ∷ []; callback = no_callback }
      ∷ approve_step call_txn_hash_ok
      ∷ reject_step
      ∷ []

  abbrev pub approve_pk_flow : Device C → List FlowStep
  approve_pk_flow d =
      let k = layout.as_public_key d.ctx in
      record { lines = k.type_str ∷ k.key_str ∷ []; callback = no_callback }
      ∷ approve_step call_pk_ok
      ∷ reject_step
      ∷ []

  abbrev pub compare_pk_flow : Device C → List FlowStep
  compare_pk_flow d =
      record {
        lines = codes "Compare" ∷ (layout.as_public_key d.ctx).full_str ∷ [];
        callback = call_idle;
      }
      ∷ []

  abbrev pub approve_hash_flow : Device C → List FlowStep
  approve_hash_flow d =
      record {
        lines = codes "Compare Input:" ∷ (layout.as_sign_hash d.ctx).hex_hash ∷ [];
        callback = no_callback;
      }
      ∷ approve_step call_hash_ok
      ∷ reject_step
      ∷ []

  unfoldable pub flow : Screen → Device C → List FlowStep
  flow menu_main d = menu_main_flow
  flow menu_about d = menu_about_flow
  flow show_txn_elem d = show_txn_elem_flow d
  flow compare_hash d = compare_hash_flow d
  flow sign_txn d = sign_txn_flow d
  flow approve_pk d = approve_pk_flow d
  flow compare_pk d = compare_pk_flow d
  flow approve_hash d = approve_hash_flow d

  module _ {K : Type 0} (sdk : Sdk C) (keys : KeySdk K) where
    -- `junk` is what the local array of `pubkeyToSiaAddress` holds. `os_sched_exit` does not return.
    unfoldable pub run_callback : Bytes → Callback → Command C (Unit {0})
    run_callback junk no_callback = pure tt
    run_callback junk call_idle = modify ui_idle
    run_callback junk call_about = modify ui_menu_about
    run_callback junk call_exit = pure tt
    run_callback junk call_elem_button = elem_button sdk
    run_callback junk call_txn_hash_ok = modify (touch_txn_hash_ok keys)
    run_callback junk call_pk_ok = modify (touch_pk_ok layout sdk keys junk)
    run_callback junk call_hash_ok = modify (touch_hash_ok layout keys)
    run_callback junk call_cancel = modify io_seproxyhal_cancel

    -- Both buttons are pressed at step number `i` of the screen.
    unfoldable pub press_step : Bytes → ℕ → Command C (Unit {0})
    press_step junk i d = run_callback junk (callback_at (flow d.screen d) i) d
