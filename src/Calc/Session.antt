-- ===== src/Calc/Session.antt =====
-- The calcTxnHash command (src/calcTxnHash.c) over any sequence of packets and button presses.
use app_sia_x.Base.{
  ℕ, ◌+◌, ◌-◌, ◌^◌, u16, ◌≡◌, ◌≢◌, ◌⊎◌, inl, inr, refl, arith, Bool, true, false, not, ◌==◌, Bytes,
  if◌then◌else◌, Result, ok, throw, stuck, raise,
}
use app_sia_x.Sdk.{Sdk}
use app_sia_x.Codes.{sw_invalid_param, sw_improper_init}
use app_sia_x.Txn.Advance.{IsValid}
use app_sia_x.Keys.{KeySdk}
use app_sia_x.Device.{
  sign_txn, menu_main, show_txn_elem, Device, show_flow, ui_idle, io_exchange_with_code,
  io_seproxyhal_cancel,
}
use app_sia_x.Calc.Handler.{
  p1_first, touch_txn_hash_ok, elem_button, first_packet, more_packet, is_packet,
  handle_calc_txn_hash,
}
use app_sia_x.Calc.Calls.{Ended, elem_button-Ended, opened-Ended, feed_txn-Ended}

-- The element button can be pressed while an element is shown, so the decoder must be valid then,
-- and within a session.
abbrev pub IsSafe : {C : Type 0} → Device C → Type 0
IsSafe d = IsValid d.ctx.txn ⊎ ((d.ctx.initialized ≡ false) × (d.screen ≢ show_txn_elem))

module _ {C : Type 0} where
  abbrev pub EndsSafely : {A : Type 0} → Result ℕ A × Device C → Type 0
  EndsSafely (r, d) = (r ≢ stuck) × IsSafe d

  from_Ended : {A : Type 0} (res : Result ℕ A × Device C) → Ended res → EndsSafely res
  from_Ended (ok a, d) h = (λ e. cc, inl h)
  from_Ended (throw e, d) h = (λ e. cc, inl h)
  from_Ended (stuck, d) h = absurd h

  refused : {A : Type 0} (e : ℕ) (d : Device C) → IsSafe d → EndsSafely (raise {A = A} e d)
  refused e d h = (λ p. cc, h)

  in_either :
      {A : Type 0} (b : Bool) (x y : Result ℕ A × Device C)
      → (b ≡ true → EndsSafely x)
      → (b ≡ false → EndsSafely y)
      → EndsSafely (if b then x else y)
  in_either true x y f g = f refl
  in_either false x y f g = g refl

module _ {C K : Type 0} (sdk : Sdk C) (keys : KeySdk K) where
  first_packet_safely :
      (p2 : ℕ) (buf : Bytes) (len : ℕ) (d : Device C)
      → IsSafe d
      → EndsSafely (first_packet sdk p2 buf len d)
  unfolding first_packet
  first_packet_safely p2 buf len d h =
      in_either d.ctx.initialized _ _ (λ e. refused sw_improper_init d h)
        (λ e. from_Ended _ (opened-Ended sdk p2 buf (u16 (len + 2 ^ 16 - 6)) d))

  more_packet_safely :
      (buf : Bytes) (len : ℕ) (d : Device C) → IsSafe d → EndsSafely (more_packet sdk buf len d)
  unfolding more_packet
  more_packet_safely buf len d (inl valid) =
      in_either (not d.ctx.initialized) _ _ (λ e. refused sw_improper_init d (inl valid))
        (λ e. from_Ended _ (feed_txn-Ended sdk buf len d valid))
  more_packet_safely buf len d (inr (e, ne)) =
      in_either (not d.ctx.initialized) _ _ (λ f. refused sw_improper_init d (inr (e, ne)))
        (λ f. absurd (ground (arith, e)))

  pub packet_safely :
      (p1 p2 : ℕ) (buf : Bytes) (len : ℕ) (d : Device C)
      → IsSafe d
      → EndsSafely (handle_calc_txn_hash sdk p1 p2 buf len d)
  unfolding handle_calc_txn_hash
  packet_safely p1 p2 buf len d h =
      in_either (not (is_packet p1 p2)) _ _ (λ e. refused sw_invalid_param d h)
        λ e.
          in_either (p1 == p1_first) _ _ (λ f. first_packet_safely p2 buf len d h)
            (λ f. more_packet_safely buf len d h)

  pub press_safely :
      (d : Device C) → d.screen ≡ show_txn_elem → IsSafe d → EndsSafely (elem_button sdk d)
  press_safely d shown (inl valid) = from_Ended _ (elem_button-Ended sdk d valid)
  press_safely d shown (inr (e, ne)) = absurd (ne shown)

  -- What can happen to the device while the command is in use: a packet, a press of the button
  -- under an element, an approval or a rejection of a signature, or the return to the menu.
  pub data Step (d : Device C) : Device C → Type 0 where
    packet :
        (p1 p2 : ℕ) (buf : Bytes) (len : ℕ) → Step d (handle_calc_txn_hash sdk p1 p2 buf len d).1
    press : d.screen ≡ show_txn_elem → Step d (elem_button sdk d).1
    approve : d.screen ≡ sign_txn → Step d (touch_txn_hash_ok keys d)
    reject : Step d (io_seproxyhal_cancel d)
    leave : Step d (ui_idle d)

  -- `sia_main` starts with `initialized` false, and shows the menu.
  pub data Reachable : Device C → Type 0 where
    start : (d : Device C) → d.ctx.initialized ≡ false → d.screen ≡ menu_main → Reachable d
    after : {d d' : Device C} → Reachable d → Step d d' → Reachable d'

  idle_safely : (d : Device C) → IsSafe d → IsSafe (ui_idle d)
  unfolding ui_idle show_flow
  idle_safely d (inl valid) = inl valid
  idle_safely d (inr (e, ne)) = inr (e, λ p. cc)

  step_safely : (d d' : Device C) → Step d d' → IsSafe d → IsSafe d'
  unfolding touch_txn_hash_ok io_seproxyhal_cancel io_exchange_with_code
  step_safely d _ (packet p1 p2 buf len) h = (packet_safely p1 p2 buf len d h).1
  step_safely d _ (press shown) h = (press_safely d shown h).1
  step_safely d _ (approve shown) h = idle_safely _ h
  step_safely d _ reject h = idle_safely _ h
  step_safely d _ leave h = idle_safely d h

  reachable_safely : (d : Device C) → Reachable d → IsSafe d
  reachable_safely d (start _ e menu) = inr (e, λ p. cc)
  reachable_safely _ (after r s) = step_safely _ _ s (reachable_safely _ r)

  -- In every state that packets and button presses can lead to, any further packet and, while an
  -- element is shown, any further press ends: it returns or throws a status word, whatever bytes
  -- the computer sends and however it splits them.
  pub session_ends :
      (d : Device C)
      → Reachable d
      → ((p1 p2 : ℕ) (buf : Bytes) (len : ℕ) → (handle_calc_txn_hash sdk p1 p2 buf len d).0 ≢ stuck)
        × (d.screen ≡ show_txn_elem → (elem_button sdk d).0 ≢ stuck)
  session_ends d r =
      let h = reachable_safely d r in
      (λ p1 p2 buf len. (packet_safely p1 p2 buf len d h).0, λ shown. (press_safely d shown h).0)
