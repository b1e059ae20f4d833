-- ===== src/Txn/Encoding/Decoding.antt =====
-- The decoding loops (src/txn.c) on the stream: what `txn_next_elem` returns, and where it stops.
use app_sia_x.Base.{
  ℕ, zero, suc, ◌+◌, ◌≤◌, ◌<◌, ◌≡◌, ◌==◌, ltb, refl, sym, ap, ◌∙◌, arith, true, false, List, [],
  ◌++◌, append-nil, Bytes, length, length-append, Result, ok, throw, stuck, continue,
}
use app_sia_x.Sdk.{Sdk, IsSdk}
use app_sia_x.Codes.{TxnDecoderState, err, ready, partial, finished}
use app_sia_x.Blake2b.{blake2b}
use app_sia_x.Txn.State.{ElemType, is_txn_sig, TxnState, buf_size}
use app_sia_x.Txn.Decode.{
  store_hash, finish_txn, next_slice, next_slices, read_elem, switch_elem, decode_elem,
  decode_elems, catch_state, txn_next_elem,
}
use app_sia_x.Txn.Advance.{IsValid, pending}
use app_sia_x.Txn.Progress.{txn_next_elem_returns}
use app_sia_x.Txn.Encoding.Parses.{length-pending}
use app_sia_x.Txn.Absorb.{sig_hash-store_hash}
use app_sia_x.Txn.Encoding.{Elem, Display, displays}
use app_sia_x.Txn.Encoding.Stage.{
  Remains, Remains-small, at_end, at_slice, at_elem, Stage, Stands, stands, Waits, waits, Presents,
  Outcome,
}
use app_sia_x.Txn.Encoding.Leads.{AtElem}
use app_sia_x.Txn.Encoding.ReadElem.{read_elem-Taken}
use app_sia_x.Txn.Encoding.Boundary.{at_prefix}

no_state : {E A : Type 0} {a : A} → ◌≡◌ {A = Result E A} stuck (ok a) → ⊥
no_state e = cc

module _ {C : Type 0} (sdk : Sdk C) (laws : IsSdk sdk) (sig_index : ℕ) (all future : Bytes) where
  -- The loop over slice boundaries stops at an element.
  data Reached (ds : List Display) (bound : ℕ) (t : TxnState C) : Type 0 where
    reached :
        {e : ElemType} {n i head : ℕ} {bs cs : Bytes} {others : List Display} (x : Elem e)
        → ds ≡ displays x ++ others
        → t.elem_type ≡ e
        → AtElem sdk sig_index all future n i head bs cs others x t
        → t.buflen ≤ bound
        → Reached ds bound t

  abbrev Reaches : List Display → ℕ → Result TxnDecoderState (Unit {0}) × TxnState C → Type 0
  Reaches ds bound (ok _, t) = Reached ds bound t
  Reaches ds bound (throw e, t) = Outcome sdk sig_index all future ds bound (throw e, t)
  Reaches ds bound (stuck, t) = Unit {0}

  weaken-Stands :
      (ds : List Display) (j k : ℕ) (t : TxnState C)
      → j ≤ k
      → Stands sdk sig_index all future ds j t
      → Stands sdk sig_index all future ds k t
  weaken-Stands ds j k t le (stands rest stage room fits) = stands rest stage room (omega arith)

  Outcome-mono :
      {j k : ℕ} (ds : List Display) (res : Result TxnDecoderState (Unit {0}) × TxnState C)
      → j ≤ k
      → Outcome sdk sig_index all future ds j res
      → Outcome sdk sig_index all future ds k res
  Outcome-mono {j} {k} ds (ok _, t) le h = weaken-Stands ds j k t le h
  Outcome-mono ds (throw ready, t) le h = record {
    first = h.first;
    others = h.others;
    order = h.order;
    shows = h.shows;
    then = h.then;
    taken = omega (arith, h.taken);
    free = h.free;
    kind = h.kind;
  }
  Outcome-mono ds (throw partial, t) le (waits rest stage few less) =
      waits rest stage few (omega arith)
  Outcome-mono ds (throw finished, t) le h = h
  Outcome-mono ds (throw err, t) le h = h
  Outcome-mono ds (stuck, t) le h = h

  module _ (bound : ℕ) where
    more_slices :
        (ds : List Display) (fuel : ℕ) (res : Result TxnDecoderState (Unit {0}) × TxnState C)
        → ((u : TxnState C)
            → Stands sdk sig_index all future ds bound u
            → Reaches ds bound (next_slices sdk fuel u))
        → Outcome sdk sig_index all future ds bound res
        → Reaches ds bound (continue (λ _. next_slices sdk fuel) res)
    more_slices ds fuel (ok _, u) rest h = rest u h
    more_slices ds fuel (throw e, u) rest h = h
    more_slices ds fuel (stuck, u) rest h = tt

    edge :
        {e : ElemType} {n : ℕ} {bs cs : Bytes} {t : TxnState C}
        → Stage sdk sig_index all future e n n bs cs t
        → (t.slice_index == t.slice_len) ≡ true
    edge stage = ground (arith, stage.same_slice_index, stage.same_slice_len)

    round :
        {e : ElemType} {n i head : ℕ} {bs cs : Bytes} {ds : List Display}
        → Remains sig_index e n i bs cs head ds
        → (fuel : ℕ) (t : TxnState C) → Stage sdk sig_index all future e n i bs cs t
        → t.buflen < 255 + head
        → t.buflen ≤ bound
        → ((u : TxnState C)
            → Stands sdk sig_index all future ds bound u
            → Reaches ds bound (next_slices sdk fuel u))
        → Reaches ds bound (next_slices sdk (suc fuel) t)
    unfolding next_slices next_slice finish_txn store_hash
    round at_end fuel t stage room le go =
        let last : is_txn_sig t.elem_type ≡ true = ap is_txn_sig stage.same_elem_type in
        rw (edge stage, last)
          (
            refl,
            sig_hash-store_hash sdk laws t stage.hashed stage.blake stage.hash_size
                ∙ ap (blake2b sdk 32) (sym (append-nil stage.hashed) ∙ stage.covered_all),
            omega (
              arith,
              length-append (pending t) future,
              ap (length {A = ℕ}) stage.stream,
              length-pending t stage.valid,
            ),
          )
    round (at_slice len range other signed rest) fuel t stage room le go = rw (edge stage) (
        more_slices _ fuel (next_slice sdk t) go (
          at_prefix sdk laws sig_index all future len range other signed rest t stage room bound
            le))
    round (at_elem x ne is rest) fuel t stage room le go =
        let inner : (t.slice_index == t.slice_len) ≡ false =
          ground (arith, stage.same_slice_index, stage.same_slice_len) in
        rw inner (
          reached x refl stage.same_elem_type
            (record { off_edge = ne; is_elem = is; rest = rest; stage = stage; room = room }) le)

    next_slices-Reaches :
        (ds : List Display) (fuel : ℕ) (t : TxnState C)
        → Stands sdk sig_index all future ds bound t
        → Reaches ds bound (next_slices sdk fuel t)
    unfolding next_slices
    next_slices-Reaches ds zero t h = tt
    next_slices-Reaches ds (suc fuel) t (stands rest stage room le) =
        round rest fuel t stage room le (next_slices-Reaches ds fuel)

    switch-Outcome :
        (ds : List Display) (res : Result TxnDecoderState (Unit {0}) × TxnState C)
        → Reaches ds bound res
        → Outcome sdk sig_index all future ds bound (continue (λ _. switch_elem sdk) res)
    unfolding switch_elem
    switch-Outcome ds (ok _, t) (reached {e} x order kind here le) =
        let read = read_elem-Taken sdk laws sig_index all future _ _ _ _ _ _ t x here in
        simp (kind, order) (Outcome-mono _ (read_elem sdk e t) le read)
    switch-Outcome ds (throw e, t) h = h
    switch-Outcome ds (stuck, t) h = h

    decode_elem-Outcome :
        (ds : List Display) (t : TxnState C)
        → Stands sdk sig_index all future ds bound t
        → Outcome sdk sig_index all future ds bound (decode_elem sdk t)
    unfolding decode_elem
    decode_elem-Outcome ds t h =
        switch-Outcome ds (next_slices sdk (t.buflen + 1) t)
          (next_slices-Reaches ds (t.buflen + 1) t h)

    more_elems :
        (ds : List Display) (fuel : ℕ) (res : Result TxnDecoderState (Unit {0}) × TxnState C)
        → ((u : TxnState C)
            → Stands sdk sig_index all future ds bound u
            → Outcome sdk sig_index all future ds bound (decode_elems sdk fuel u))
        → Outcome sdk sig_index all future ds bound res
        → Outcome sdk sig_index all future ds bound (continue (λ _. decode_elems sdk fuel) res)
    more_elems ds fuel (ok _, u) rest h = rest u h
    more_elems ds fuel (throw e, u) rest h = h
    more_elems ds fuel (stuck, u) rest h = tt

    decode_elems-Outcome :
        (ds : List Display) (fuel : ℕ) (t : TxnState C)
        → Stands sdk sig_index all future ds bound t
        → Outcome sdk sig_index all future ds bound (decode_elems sdk fuel t)
    unfolding decode_elems
    decode_elems-Outcome ds zero t h = tt
    decode_elems-Outcome ds (suc fuel) t h =
        more_elems ds fuel (decode_elem sdk t) (decode_elems-Outcome ds fuel)
          (decode_elem-Outcome ds t h)

  -- What a call of `txn_next_elem` that began at `t` makes of the stream.
  pub data Decodes {E : Type 0} (ds : List Display) (t : TxnState C)
      : Result E TxnDecoderState × TxnState C → Type 0 where
    presents :
        (u : TxnState C)
        → Presents sdk sig_index all future ds t.buflen u
        → Decodes ds t (ok ready, u)
    asks :
        (u : TxnState C)
        → Waits sdk sig_index all future ds t.buflen u
        → Decodes ds t (ok partial, u)
    ends :
        (u : TxnState C) → ds ≡ [] → u.sig_hash ≡ blake2b sdk 32 all → Decodes ds t (ok finished, u)

  uncaught :
      {E : Type 0} (e : TxnDecoderState) (buflen : ℕ)
      → buflen < 255
      → catch_state {E = E} (throw e) buflen ≡ ok e
  unfolding catch_state
  uncaught e buflen free = let room : ltb buf_size (buflen + 255) ≡ false = ground arith in rw room

  caught :
      {E : Type 0} (ds : List Display) (t : TxnState C) (s : TxnDecoderState)
      (res : Result TxnDecoderState (Unit {0}) × TxnState C)
      → catch_state {E = E} res.0 res.1.buflen ≡ ok s
      → Outcome sdk sig_index all future ds t.buflen res
      → Decodes {E = E} ds t (catch_state res.0 res.1.buflen, res.1)
  unfolding catch_state
  caught ds t s (throw ready, u) run h = rw (uncaught ready u.buflen h.free) (presents u h)
  caught ds t s (throw partial, u) run (waits rest stage few le) =
      let free : u.buflen < 255 = omega (arith, Remains-small rest) in
      rw (uncaught partial u.buflen free) (asks u (waits rest stage few le))
  caught ds t s (throw finished, u) run (none, digest, free) =
      rw (uncaught finished u.buflen free) (ends u none digest)
  caught ds t s (throw err, u) run h = absurd h
  caught ds t s (ok _, u) run h = absurd (no_state run)
  caught ds t s (stuck, u) run h = absurd (no_state run)

  pub txn_next_elem-Decodes :
      {E : Type 0} (ds : List Display) (t : TxnState C)
      → IsValid t
      → Stands sdk sig_index all future ds t.buflen t
      → Decodes {E = E} ds t (txn_next_elem sdk t)
  unfolding txn_next_elem
  txn_next_elem-Decodes ds t valid h =
      let (s, run, _) = txn_next_elem_returns sdk t valid in
      caught ds t s (decode_elems sdk (t.buflen + 1) t) run
        (decode_elems-Outcome t.buflen ds (t.buflen + 1) t h)
