-- ===== src/Calc/Calls.antt =====
-- The calcTxnHash command (src/calcTxnHash.c): each of its calls ends and keeps the decoder
-- valid.
use app_sia_x.Base.{
  ℕ, drop, ◌≡◌, ◌≢◌, inl, inr, refl, Bool, true, false, Bytes, if◌then◌else◌, ltb, Bool-cases, u8,
  take, Action, Result, ok, throw, stuck, continue,
}
use app_sia_x.Sdk.{Sdk}
use app_sia_x.Codes.{TxnDecoderState, err, partial, ready, finished}
use app_sia_x.Txn.State.{
  ElemType, unset, sc_input, sc_output, fc, fcr, sp, sf_input, sf_output, miner_fee, arb_data,
  txn_sig, beyond, TxnState,
}
use app_sia_x.Txn.Advance.{IsValid, txn_update_lem, txn_init-IsValid}
use app_sia_x.Txn.Progress.{txn_next_elem_returns}
use app_sia_x.Device.Contexts.{CalcTxnHashContext}
use app_sia_x.Device.{Device, io_exchange_with_code, show_flow, ui_idle, reply_later}
use app_sia_x.Calc.Format.{
  label_elem, fmt_address, fmt_siacoins, fmt_siafunds, fmt_elem, fmt_txn_elem,
}
use app_sia_x.Calc.Handler.{
  with_txn, set_elem_part, name_key, number_key, send_hash, end_session, on_state_button, on_state,
  update_txn, next_elem, elem_button, begin_session, feed_txn,
}

module _ {C : Type 0} where
  txn_if :
      (t : TxnState C) (b : Bool) (x y : CalcTxnHashContext C)
      → x.txn ≡ t
      → y.txn ≡ t
      → (if b then x else y).txn ≡ t
  txn_if t true x y p q = p
  txn_if t false x y p q = q

  device_if :
      (t : TxnState C) (b : Bool) (x y : Device C)
      → x.ctx.txn ≡ t
      → y.ctx.txn ≡ t
      → (if b then x else y).ctx.txn ≡ t
  device_if t true x y p q = p
  device_if t false x y p q = q

  -- Formatting leaves the decoder alone.
  fmt_elem-same_txn : (e : ElemType) (d : Device C) → (fmt_elem e d).ctx.txn ≡ d.ctx.txn
  unfolding fmt_elem label_elem fmt_address fmt_siacoins fmt_siafunds ui_idle show_flow
      io_exchange_with_code
  fmt_elem-same_txn sc_output d = txn_if d.ctx.txn _ _ _ refl refl
  fmt_elem-same_txn sf_output d = txn_if d.ctx.txn _ _ _ refl refl
  fmt_elem-same_txn miner_fee d = refl
  fmt_elem-same_txn unset d = refl
  fmt_elem-same_txn sc_input d = refl
  fmt_elem-same_txn fc d = refl
  fmt_elem-same_txn fcr d = refl
  fmt_elem-same_txn sp d = refl
  fmt_elem-same_txn sf_input d = refl
  fmt_elem-same_txn arb_data d = refl
  fmt_elem-same_txn txn_sig d = refl
  fmt_elem-same_txn beyond d = refl

  on_state_button-same_txn :
      (s : TxnDecoderState) (d : Device C) → (on_state_button s d).ctx.txn ≡ d.ctx.txn
  unfolding on_state_button ui_idle show_flow io_exchange_with_code fmt_txn_elem set_elem_part
      end_session send_hash name_key
  on_state_button-same_txn err d = refl
  on_state_button-same_txn partial d = refl
  on_state_button-same_txn ready d = fmt_elem-same_txn d.ctx.txn.elem_type (set_elem_part d)
  on_state_button-same_txn finished d = device_if d.ctx.txn d.ctx.sign _ _ refl refl

  -- A call that has ended, with a valid decoder.
  abbrev pub Ended : {A : Type 0} → Result ℕ A × Device C → Type 0
  Ended (ok _, d) = IsValid d.ctx.txn
  Ended (throw e, d) = IsValid d.ctx.txn
  Ended (stuck, d) = ⊥

  on_state-Ended : (s : TxnDecoderState) (d : Device C) → IsValid d.ctx.txn → Ended (on_state s d)
  unfolding on_state show_flow reply_later fmt_txn_elem set_elem_part end_session send_hash name_key
      number_key io_exchange_with_code
  on_state-Ended err d h = h
  on_state-Ended partial d h = h
  on_state-Ended ready d h = rw (fmt_elem-same_txn d.ctx.txn.elem_type (set_elem_part d)) h
  on_state-Ended finished d h =
      rw
        (device_if d.ctx.txn d.ctx.sign (reply_later (show_flow _ (name_key (number_key d))))
          (send_hash d) refl refl)
        h

  continue-Ended :
      {A B : Type 0} (f : A → Action (Device C) ℕ B) (res : Result ℕ A × Device C)
      → Ended res
      → ((a : A) (d : Device C) → IsValid d.ctx.txn → Ended (f a d))
      → Ended (continue f res)
  continue-Ended f (ok a, d) h k = k a d h
  continue-Ended f (throw e, d) h k = h
  continue-Ended f (stuck, d) h k = h

  with_txn-Ended :
      {A : Type 0} (d : Device C) (res : Result ℕ A × TxnState C)
      → res.0 ≢ stuck
      → IsValid res.1
      → Ended (with_txn d res)
  with_txn-Ended d (ok a, t) ne h = h
  with_txn-Ended d (throw e, t) ne h = h
  with_txn-Ended d (stuck, t) ne h = absurd (ne refl)

  update_txn-Ended :
      (buf : Bytes) (len : ℕ) (d : Device C) → IsValid d.ctx.txn → Ended (update_txn buf len d)
  unfolding update_txn
  update_txn-Ended buf len d h = elim (txn_update_lem (take (u8 len) buf) d.ctx.txn h) [
    | inl (room, r, same, pos, h') ↦ with_txn-Ended d _ (λ e. cc) h'
    | inr (full, r, same) ↦ with_txn-Ended d _ (λ e. cc) (rw same h)
  ]

module _ {C : Type 0} (sdk : Sdk C) where
  next_elem-Ended : (d : Device C) → IsValid d.ctx.txn → Ended (next_elem sdk d)
  unfolding next_elem
  next_elem-Ended d h =
      let (s, r, (full, h')) = txn_next_elem_returns sdk d.ctx.txn h in
      with_txn-Ended d _ (λ e. cc) h'

  pub feed_txn-Ended :
      (buf : Bytes) (len : ℕ) (d : Device C) → IsValid d.ctx.txn → Ended (feed_txn sdk buf len d)
  unfolding feed_txn
  feed_txn-Ended buf len d h =
      continue-Ended _ (update_txn buf len d) (update_txn-Ended buf len d h)
        λ _ d' h'. continue-Ended on_state (next_elem sdk d') (next_elem-Ended d' h') on_state-Ended

  begin_session-IsValid :
      (p2 : ℕ) (buf : Bytes) (d : Device C) → IsValid (begin_session sdk p2 buf d).ctx.txn
  unfolding begin_session
  begin_session-IsValid p2 buf d = txn_init-IsValid sdk (sdk.u2_le (drop 4 buf) 0)

  -- With a valid decoder the button's handler ends and keeps it valid.
  pub elem_button-Ended : (d : Device C) → IsValid d.ctx.txn → Ended (elem_button sdk d)
  unfolding elem_button show_flow fmt_txn_elem
  elem_button-Ended d h = elim (Bool-cases (ltb 0 d.ctx.elem_part)) [
    | inl e ↦ simp (e, fmt_elem-same_txn d.ctx.txn.elem_type d) h
    | inr e ↦ simp e (
        continue-Ended _ (next_elem sdk d) (next_elem-Ended d h)
          (λ s d' h'. rw (on_state_button-same_txn s d') h'))
  ]

  -- The rest of a first packet, once a session has begun.
  pub opened-Ended :
      (p2 : ℕ) (buf : Bytes) (len : ℕ) (d : Device C)
      → Ended (feed_txn sdk (drop 6 buf) len (begin_session sdk p2 buf d))
  opened-Ended p2 buf len d =
      feed_txn-Ended (drop 6 buf) len (begin_session sdk p2 buf d) (begin_session-IsValid p2 buf d)
