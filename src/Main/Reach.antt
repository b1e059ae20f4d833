-- ===== src/Main/Reach.antt =====
-- The whole app (src/main.c and the commands): every packet and every press, in any order.
use app_sia_x.Base.{
  ℕ, ◌≢◌, inr, refl, not, ◌==◌, ◌&&◌, Bytes, byte_at, length, stuck, Option, none, some,
}
use app_sia_x.Sdk.{Sdk}
use app_sia_x.Codes.{sw_invalid_param}
use app_sia_x.Keys.{KeySdk}
use app_sia_x.Device.Contexts.{Layout, IsLayout}
use app_sia_x.Device.{
  approve_pk, approve_hash, Device, show_flow, ui_idle, reply_later, io_exchange_with_code,
}
use app_sia_x.Calc.Session.{IsSafe, EndsSafely, packet_safely}
use app_sia_x.SignHash.{handle_sign_hash}
use app_sia_x.PublicKey.{handle_get_public_key}
use app_sia_x.Screens.{press_step}
use app_sia_x.Main.{
  handle_get_version, Handler, get_version, get_public_key, sign_hash, calc_txn_hash,
  lookup_handler, cla, receive, sia_start, restart, call, call_handler, dispatch, sia_round,
}
use app_sia_x.Main.Safe.{Spares-SafeIn, raised, either_ends, loop_either, catch_other_safely}
use app_sia_x.Main.Press.{press_step_safely}

module _ {C K : Type 0} (layout : Layout C) (laws : IsLayout layout) (sdk : Sdk C) (keys : KeySdk K)
    (version : Bytes) where
  public_key_safely :
      (p2 : ℕ) (buf : Bytes) (d : Device C)
      → IsSafe d
      → EndsSafely (handle_get_public_key layout sdk p2 buf d)
  unfolding handle_get_public_key reply_later show_flow ui_idle
  public_key_safely p2 buf d h =
      either_ends (not (p2 == 0x00) && not (p2 == 0x01)) _ _ (raised sw_invalid_param d h) (
        λ e. cc,
        Spares-SafeIn d.ctx _ d.screen approve_pk (laws.spares_public_key _ d.ctx) (λ e. cc) h,
      )

  call_safely :
      (handler : Handler) (p1 p2 : ℕ) (buf : Bytes) (len : ℕ) (d : Device C)
      → IsSafe d
      → EndsSafely (call layout sdk version handler p1 p2 buf len d)
  unfolding call handle_get_version io_exchange_with_code handle_sign_hash reply_later show_flow
  call_safely get_version p1 p2 buf len d h = (λ e. cc, h)
  call_safely get_public_key p1 p2 buf len d h = public_key_safely p2 buf d h
  call_safely sign_hash p1 p2 buf len d h = (
    λ e. cc,
    Spares-SafeIn d.ctx _ d.screen approve_hash (laws.spares_sign_hash _ d.ctx) (λ e. cc) h,
  )
  call_safely calc_txn_hash p1 p2 buf len d h = packet_safely sdk keys p1 p2 buf len d h

  call_handler_safely :
      (o : Option Handler) (d : Device C)
      → IsSafe d
      → EndsSafely (call_handler layout sdk version o d)
  unfolding call_handler
  call_handler_safely none d h = raised 0x6D00 d h
  call_handler_safely (some handler) d h = call_safely handler _ _ _ _ d h

  dispatch_safely : (d : Device C) → IsSafe d → EndsSafely (dispatch layout sdk version d)
  unfolding dispatch
  dispatch_safely d h =
      either_ends (not (byte_at d.apdu 0 == cla)) _ _ (raised 0x6E00 d h)
        (call_handler_safely (lookup_handler (byte_at d.apdu 1)) d h)

  round_safely :
      (packet : Bytes) (d : Device C)
      → IsSafe d
      → ((sia_round layout sdk version packet d).0 ≢ stuck)
        × IsSafe (sia_round layout sdk version packet d).1
  unfolding sia_round receive
  round_safely packet d h =
      loop_either (length packet == 0) _ _ (λ e. cc, h)
        (catch_other_safely (dispatch layout sdk version (receive packet d))
          (dispatch_safely (receive packet d) h))

  -- The states that the app can be in while it waits, with any packets and presses in any order.
  pub data Waiting : Device C → Type 0 where
    booted : (d : Device C) → Waiting (restart d)
    after_packet :
        {d : Device C} (packet : Bytes)
        → Waiting d
        → Waiting (sia_round layout sdk version packet d).1
    after_reset : {d : Device C} → Waiting d → Waiting (restart d)
    after_press :
        {d : Device C} (i : ℕ) (junk : Bytes)
        → Waiting d
        → Waiting (press_step layout version sdk keys junk i d).1

  restart-IsSafe : (d : Device C) → IsSafe (restart d)
  unfolding restart sia_start ui_idle show_flow
  restart-IsSafe d = inr (refl, λ e. cc)

  Waiting-IsSafe : (d : Device C) → Waiting d → IsSafe d
  Waiting-IsSafe _ (booted d) = restart-IsSafe d
  Waiting-IsSafe _ (after_packet packet w) = (round_safely packet _ (Waiting-IsSafe _ w)).1
  Waiting-IsSafe _ (after_reset w) = restart-IsSafe _
  Waiting-IsSafe _ (after_press i junk w) =
      (press_step_safely layout laws sdk keys version i junk _ (Waiting-IsSafe _ w)).1

  -- Whatever packets come and whatever steps of the screens the user presses, in any order, every
  -- round of the main loop and every press ends, although the commands share the memory of their
  -- contexts and one may interrupt another. This holds for a layout of the union as documented.
  pub app_ends :
      (d : Device C)
      → Waiting d
      → ((packet : Bytes) → (sia_round layout sdk version packet d).0 ≢ stuck)
        × ((i : ℕ) (junk : Bytes) → (press_step layout version sdk keys junk i d).0 ≢ stuck)
  app_ends d w =
      let h = Waiting-IsSafe d w in
      (
        λ packet. (round_safely packet d h).0,
        λ i junk. (press_step_safely layout laws sdk keys version i junk d h).0,
      )
