-- ===== src/Txn/Progress.antt =====
-- The decoder as a whole (src/txn.c): neither of its loops runs for ever, and it keeps the
-- invariant.
use app_sia_x.Base.{
  ℕ, zero, suc, ◌+◌, ◌≤◌, ◌<◌, ◌≡◌, refl, arith, ltb, Result, ok, throw, stuck, continue,
  Bool-cases, inl, inr,
}
use app_sia_x.Sdk.{Sdk}
use app_sia_x.Codes.{TxnDecoderState, err}
use app_sia_x.Txn.State.{TxnState, buf_size}
use app_sia_x.Txn.Decode.{
  next_slices, switch_elem, decode_elem, decode_elems, catch_state, txn_next_elem,
}
use app_sia_x.Txn.Advance.{IsValid}
use app_sia_x.Txn.Slices.{Takes, AtElem, next_slices-AtElem}
use app_sia_x.Txn.Elements.{read_elem-Takes}

module _ {C : Type 0} (sdk : Sdk C) where
  Takes-mono :
      (t u : TxnState C) (res : Result TxnDecoderState (Unit {0}) × TxnState C)
      → u.buflen ≤ t.buflen
      → Takes 1 u res
      → Takes 1 t res
  Takes-mono t u (ok _, v) le (h, p) = (h, omega arith)
  Takes-mono t u (throw e, v) le (h, p) = (h, omega arith)
  Takes-mono t u (stuck, v) le h = h

  read_next :
      (t : TxnState C) (res : Result TxnDecoderState (Unit {0}) × TxnState C)
      → AtElem sdk t res
      → Takes 1 t (continue (λ _. switch_elem sdk) res)
  unfolding switch_elem
  read_next t (ok _, u) (h, le, ne) =
      Takes-mono t u (switch_elem sdk u) le (read_elem-Takes sdk u.elem_type u refl h ne)
  read_next t (throw e, u) h = h
  read_next t (stuck, u) h = h

  -- From a state that meets the invariant `__txn_next_elem` always ends. If it returns it has taken
  -- a byte at least; either way the invariant holds afterwards.
  pub decode_elem-Takes : (t : TxnState C) → IsValid t → Takes 1 t (decode_elem sdk t)
  unfolding decode_elem
  decode_elem-Takes t h =
      read_next t (next_slices sdk (t.buflen + 1) t)
        (next_slices-AtElem sdk (t.buflen + 1) t h (omega arith))

  -- The loop ends by a throw.
  abbrev Thrown : Result TxnDecoderState (Unit {0}) × TxnState C → Type 0
  Thrown (ok _, t) = ⊥
  Thrown (throw e, t) = IsValid t
  Thrown (stuck, t) = ⊥

  more_elems :
      (fuel : ℕ) (t : TxnState C) (res : Result TxnDecoderState (Unit {0}) × TxnState C)
      → ((u : TxnState C) → IsValid u → u.buflen < fuel → Thrown (decode_elems sdk fuel u))
      → t.buflen < suc fuel
      → Takes 1 t res
      → Thrown (continue (λ _. decode_elems sdk fuel) res)
  more_elems fuel t (ok _, u) rest lt (h, p) = rest u h (omega arith)
  more_elems fuel t (throw e, u) rest lt h = h.0
  more_elems fuel t (stuck, u) rest lt h = h

  decode_elems-Thrown :
      (fuel : ℕ) (t : TxnState C) → IsValid t → t.buflen < fuel → Thrown (decode_elems sdk fuel t)
  unfolding decode_elems
  decode_elems-Thrown zero t h lt = absurd (omega arith)
  decode_elems-Thrown (suc fuel) t h lt =
      more_elems fuel t (decode_elem sdk t) (decode_elems-Thrown fuel) lt (decode_elem-Takes t h)

  caught :
      {E : Type 0} (res : Result TxnDecoderState (Unit {0}) × TxnState C)
      → Thrown res
      → (s : TxnDecoderState) × (catch_state {E = E} res.0 res.1.buflen ≡ ok s)
        × ((buf_size < res.1.buflen + 255 → s ≡ err) × IsValid res.1)
  unfolding catch_state
  caught (ok _, t) h = absurd h
  caught (throw e, t) h = elim (Bool-cases (ltb buf_size (t.buflen + 255))) [
    | inl full ↦ (err, rw full, (λ _. refl, h))
    | inr free ↦ (e, rw free, ((λ over. absurd (ground arith)), h))
  ]
  caught (stuck, t) h = absurd h

  -- From a state that meets the invariant `txn_next_elem` returns, whatever bytes are buffered:
  -- neither loop runs for ever. The invariant holds afterwards, and the result is TXN_STATE_ERR if
  -- the buffer is left too full for another packet of 255 bytes.
  pub txn_next_elem_returns :
      {E : Type 0} (t : TxnState C)
      → IsValid t
      → let (r, t') = txn_next_elem sdk {E = E} t in
        (s : TxnDecoderState) × (r ≡ ok s) × ((buf_size < t'.buflen + 255 → s ≡ err) × IsValid t')
  unfolding txn_next_elem
  txn_next_elem_returns t h =
      caught (decode_elems sdk (t.buflen + 1) t)
        (decode_elems-Thrown (t.buflen + 1) t h (omega arith))
