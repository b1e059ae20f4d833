-- ===== src/Txn/Slices.antt =====
-- The loop over slice boundaries (src/txn.c): each round keeps the invariant and takes eight bytes
-- or throws.
use app_sia_x.Base.{
  ℕ, zero, suc, ◌+◌, ◌≤◌, ◌<◌, ◌≡◌, ◌≢◌, inl, inr, refl, arith, Bool, true, false, ◌==◌, Bool-cases,
  Result, ok, throw, stuck, raise_if, continue,
}
use app_sia_x.Sdk.{Sdk}
use app_sia_x.Codes.{TxnDecoderState, err}
use app_sia_x.Txn.State.{
  ElemType, unset, sc_input, sc_output, fc, fcr, sp, sf_input, sf_output, miner_fee, arb_data,
  txn_sig, beyond, bump, is_txn_sig, TxnState,
}
use app_sia_x.Txn.Read.{read_int}
use app_sia_x.Txn.Decode.{
  advance, store_hash, enter_slice, begin_slice, finish_txn, sig_missing, next_slice, next_slices,
}
use app_sia_x.Txn.Readers.{Ends, read_int-Reads}
use app_sia_x.Txn.Advance.{
  Counted, IsValid, IsValid-IsSeekable, Keeps-IsValid, buflen-advance, length-advance,
}

module _ {C : Type 0} where
  -- A call that began at `t` keeps the invariant, and has taken so many bytes if it returns.
  abbrev pub Takes : {A : Type 0} → ℕ → TxnState C → Result TxnDecoderState A × TxnState C → Type 0
  Takes k t (ok a, t') = IsValid t' × (t'.buflen + k ≤ t.buflen)
  Takes k t (throw e, t') = IsValid t' × (t'.buflen ≤ t.buflen)
  Takes k t (stuck, t') = ⊥

Counted-bump :
    (e : ElemType) (i n m : ℕ) → Counted e i n → is_txn_sig e ≡ false → Counted (bump e) 0 m
unfolding bump
Counted-bump unset i n m h e = inl refl
Counted-bump sc_input i n m h e = inl refl
Counted-bump sc_output i n m h e = inl refl
Counted-bump fc i n m h e = inl refl
Counted-bump fcr i n m h e = inl refl
Counted-bump sp i n m h e = inl refl
Counted-bump sf_input i n m h e = inl refl
Counted-bump sf_output i n m h e = inl refl
Counted-bump miner_fee i n m h e = inl refl
Counted-bump arb_data i n m h e = inl refl
Counted-bump txn_sig i n m h e = cc
Counted-bump beyond i n m h e = absurd h

-- Off a slice boundary the slice is not empty, and the next index is as good.
pub Counted-next : (e : ElemType) (i n j : ℕ) → Counted e i n → i ≢ n → Counted e j n × (0 < n)
Counted-next unset i n j h ne = absurd (omega arith)
Counted-next beyond i n j h ne = absurd h
Counted-next sc_input i n j h ne = (inr (omega arith), omega arith)
Counted-next _ i n j h ne = (inr (omega arith), omega arith)

module _ {C : Type 0} (sdk : Sdk C) where
  pub IsValid-advance :
      (t : TxnState C)
      → IsValid t
      → IsValid (advance sdk t) × ((advance sdk t).buflen + t.pos ≡ t.buflen)
  unfolding advance
  IsValid-advance t h =
      let less = buflen-advance sdk t (IsValid-IsSeekable h) h.cap in
      (
        record {
          cap = length-advance sdk t (IsValid-IsSeekable h) h.cap;
          fits = omega (arith, less, h.fits);
          seeked = omega arith;
          counted = h.counted;
        },
        omega (arith, less, h.seeked),
      )

  pub IsValid-enter_slice :
      (len : ℕ) (t : TxnState C)
      → IsValid t
      → is_txn_sig t.elem_type ≡ false
      → IsValid (enter_slice sdk len t) × ((enter_slice sdk len t).buflen + t.pos ≡ t.buflen)
  unfolding enter_slice
  IsValid-enter_slice len t h e =
      let entered = record t { slice_len = len; slice_index = 0; elem_type = bump t.elem_type } in
      IsValid-advance entered (record {
        cap = h.cap;
        fits = h.fits;
        seeked = h.seeked;
        counted = Counted-bump t.elem_type t.slice_index t.slice_len len h.counted e;
      })

  raise_if-Takes :
      (k : ℕ) (t u : TxnState C) (b : Bool) (e : TxnDecoderState)
      → IsValid u
      → u.buflen + k ≤ t.buflen
      → Takes k t (raise_if b e u)
  raise_if-Takes k t u true e h p = (h, omega arith)
  raise_if-Takes k t u false e h p = (h, p)

  begin_slice-Takes :
      (t : TxnState C) (res : Result TxnDecoderState ℕ × TxnState C)
      → IsValid t
      → is_txn_sig t.elem_type ≡ false
      → Ends 8 t res
      → Takes 8 t (continue (begin_slice sdk) res)
  unfolding begin_slice
  begin_slice-Takes t (ok len, u) h e (k, p) =
      let (valid, less) = IsValid-enter_slice len u (Keeps-IsValid k h) (rw k.same_elem_type e) in
      raise_if-Takes 8 t (enter_slice sdk len u) (sig_missing sdk (enter_slice sdk len u)) err valid
        (omega (arith, k.same_buflen))
  begin_slice-Takes t (throw x, u) h e (k, _) = (Keeps-IsValid k h, omega (arith, k.same_buflen))
  begin_slice-Takes t (stuck, u) h e k = k

  next_slice-Takes : (t : TxnState C) → IsValid t → Takes 8 t (next_slice sdk t)
  unfolding next_slice finish_txn store_hash
  next_slice-Takes t h = elim (Bool-cases (is_txn_sig t.elem_type)) [
    | inl e ↦
        rw e (
          record { cap = h.cap; fits = h.fits; seeked = h.seeked; counted = h.counted },
          omega arith,
        )
    | inr e ↦ rw e (
        begin_slice-Takes t (read_int sdk t) h e
          ((read_int-Reads sdk).ends t (IsValid-IsSeekable h)))
  ]

  -- The loop stops off a slice boundary.
  abbrev pub AtElem : TxnState C → Result TxnDecoderState (Unit {0}) × TxnState C → Type 0
  AtElem t (ok _, t') = IsValid t' × (t'.buflen ≤ t.buflen) × (t'.slice_index ≢ t'.slice_len)
  AtElem t (throw e, t') = IsValid t' × (t'.buflen ≤ t.buflen)
  AtElem t (stuck, t') = ⊥

  AtElem-mono :
      (t u : TxnState C) (res : Result TxnDecoderState (Unit {0}) × TxnState C)
      → u.buflen ≤ t.buflen
      → AtElem u res
      → AtElem t res
  AtElem-mono t u (ok _, v) le (h, p, ne) = (h, omega arith, ne)
  AtElem-mono t u (throw e, v) le (h, p) = (h, omega arith)
  AtElem-mono t u (stuck, v) le h = h

  more_slices :
      (fuel : ℕ) (t : TxnState C) (res : Result TxnDecoderState (Unit {0}) × TxnState C)
      → ((u : TxnState C) → IsValid u → u.buflen < fuel → AtElem u (next_slices sdk fuel u))
      → t.buflen < suc fuel
      → Takes 8 t res
      → AtElem t (continue (λ _. next_slices sdk fuel) res)
  more_slices fuel t (ok _, u) rest lt (h, p) =
      AtElem-mono t u (next_slices sdk fuel u) (omega arith) (rest u h (omega arith))
  more_slices fuel t (throw e, u) rest lt h = h
  more_slices fuel t (stuck, u) rest lt h = h

  -- With more fuel than bytes the loop ends, with a throw or off a slice boundary.
  pub next_slices-AtElem :
      (fuel : ℕ) (t : TxnState C) → IsValid t → t.buflen < fuel → AtElem t (next_slices sdk fuel t)
  unfolding next_slices
  next_slices-AtElem zero t h lt = absurd (omega arith)
  next_slices-AtElem (suc fuel) t h lt = elim (Bool-cases (t.slice_index == t.slice_len)) [
    | inl e ↦
        rw e (
          more_slices fuel t (next_slice sdk t) (next_slices-AtElem fuel) lt (next_slice-Takes t h))
    | inr e ↦ rw e (h, omega arith, ground arith)
  ]
