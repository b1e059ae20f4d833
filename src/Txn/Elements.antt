-- ===== src/Txn/Elements.antt =====
-- The elements (src/txn.c): reading one keeps the invariant and takes at least one byte, or throws.
use app_sia_x.Base.{
  ℕ, ◌+◌, ◌≤◌, ◌≡◌, ◌≢◌, arith, true, false, not, ◌==◌, u16, Result, ok, throw, stuck, raise,
  modify, continue, ◌>>=◌, ◌>>◌,
}
use mathlib.Core.Path.{subst}
use app_sia_x.Sdk.{Sdk}
use app_sia_x.Codes.{TxnDecoderState, err, ready}
use app_sia_x.Txn.State.{
  ElemType, unset, sc_input, sc_output, fc, fcr, sp, sf_input, sf_output, miner_fee, arb_data,
  txn_sig, beyond, TxnState, TxnAction,
}
use app_sia_x.Txn.Read.{add_replay_protection}
use app_sia_x.Txn.Decode.{advance, end_elem, label_fee, check_absent, read_elem}
use app_sia_x.Txn.Readers.{
  Keeps, Ends, Reads, Keeps-refl, Keeps-trans, read_int-Reads, read_currency-Reads, read_hash-Reads,
  read_prefixed_bytes-Reads, read_unlock_conditions-Reads, read_covered_fields-Reads,
}
use app_sia_x.Txn.Advance.{Counted, IsValid, IsValid-IsSeekable, Keeps-IsValid}
use app_sia_x.Txn.Slices.{Takes, Counted-next, IsValid-advance}

module _ {C : Type 0} where
  -- What stands behind readers that began at `t` and have taken `k` bytes at least.
  record Closes (k : ℕ) (m : TxnAction C (Unit {0})) : Type 0 where
    takes :
        (t u : TxnState C)
        → IsValid t
        → t.slice_index ≢ t.slice_len
        → Keeps t u
        → k ≤ u.pos
        → Takes 1 t (m u)

  read_on :
      {A : Type 0} (j k i : ℕ) (f : A → TxnAction C (Unit {0}))
      → i ≤ k + j
      → ((a : A) → Closes i (f a))
      → (t u : TxnState C) → IsValid t
      → t.slice_index ≢ t.slice_len
      → Keeps t u
      → k ≤ u.pos
      → (res : Result TxnDecoderState A × TxnState C) → Ends j u res
      → Takes 1 t (continue f res)
  read_on j k i f le rest t u h ne keep p (ok a, v) (keep', q) =
      (rest a).takes t v h ne (Keeps-trans keep keep') (omega arith)
  read_on j k i f le rest t u h ne keep p (throw e, v) (keep', _) =
      let both = Keeps-trans keep keep' in (Keeps-IsValid both h, omega (arith, both.same_buflen))
  read_on j k i f le rest t u h ne keep p (stuck, v) keep' = keep'

  then-Closes :
      {A : Type 0} (j k i : ℕ) (m : TxnAction C A) (f : A → TxnAction C (Unit {0}))
      → i ≤ k + j
      → Reads j m
      → ((a : A) → Closes i (f a))
      → Closes k (m >>= f)
  then-Closes j k i m f le h rest = record {
    takes = λ t u valid ne keep p.
        read_on j k i f le rest t u valid ne keep p (m u)
          (h.ends u (IsValid-IsSeekable (Keeps-IsValid keep valid)));
  }

module _ {C : Type 0} (sdk : Sdk C) where
  pub end_elem_lem :
      (t u : TxnState C)
      → IsValid t
      → t.slice_index ≢ t.slice_len
      → IsValid u
      → u.elem_type ≡ t.elem_type
      → u.slice_len ≡ t.slice_len
      → u.buflen ≡ t.buflen
      → 1 ≤ u.pos
      → IsValid (end_elem sdk u) × ((end_elem sdk u).buflen + 1 ≤ t.buflen)
  unfolding end_elem advance
  end_elem_lem t u h ne valid ee en el p =
      let (drained, less) = IsValid-advance sdk u valid in
      let index = u16 (u.slice_index + 1) in
      (
        record {
          cap = drained.cap;
          fits = drained.fits;
          seeked = drained.seeked;
          counted =
              rw (ee, en) (Counted-next t.elem_type t.slice_index t.slice_len index h.counted ne).0;
        },
        omega (arith, less),
      )

  end_elem-Closes : Closes 1 (modify (end_elem sdk))
  end_elem-Closes = record {
    takes = λ t u h ne keep p.
        end_elem_lem t u h ne (Keeps-IsValid keep h) keep.same_elem_type keep.same_slice_len
          keep.same_buflen p;
  }

  shown-Closes : Closes 1 (modify (end_elem sdk) >> raise ready)
  shown-Closes = record {
    takes = λ t u h ne keep p.
        let (valid, less) =
          end_elem_lem t u h ne (Keeps-IsValid keep h) keep.same_elem_type keep.same_slice_len
            keep.same_buflen p in
        (valid, omega arith);
  }

  input-Closes : Closes 1 (modify (add_replay_protection sdk) >> modify (end_elem sdk))
  unfolding add_replay_protection
  input-Closes = record {
    takes = λ t u h ne keep p.
        let valid = Keeps-IsValid keep h in
        end_elem_lem t (add_replay_protection sdk u) h ne
          (record {
            cap = valid.cap;
            fits = valid.fits;
            seeked = valid.seeked;
            counted = valid.counted;
          })
          keep.same_elem_type keep.same_slice_len keep.same_buflen p;
  }

  pub label_fee-Reads : Reads 0 (modify (label_fee {C = C} sdk))
  unfolding label_fee
  label_fee-Reads = record { ends = λ t s. (ground arith, omega arith) }

  pub check_absent-throws :
      (t : TxnState C)
      → IsValid t
      → t.slice_index ≢ t.slice_len
      → check_absent sdk t ≡ (throw err, t)
  unfolding check_absent
  check_absent-throws t h ne =
      let pos = (Counted-next t.elem_type t.slice_index t.slice_len 0 h.counted ne).1 in
      let filled : not (t.slice_len == 0) ≡ true = ground arith in rw filled

  check_absent-Takes :
      (t : TxnState C) → IsValid t → t.slice_index ≢ t.slice_len → Takes 1 t (check_absent sdk t)
  check_absent-Takes t h ne = rw (check_absent-throws t h ne) (h, omega arith)

  closed :
      (t : TxnState C) (m : TxnAction C (Unit {0}))
      → IsValid t
      → t.slice_index ≢ t.slice_len
      → Closes 0 m
      → Takes 1 t (m t)
  closed t m h ne c = c.takes t t h ne (Keeps-refl t (IsValid-IsSeekable h)) (omega arith)

  output-Closes : Closes 0 (read_elem sdk sc_output)
  unfolding read_elem
  output-Closes =
      then-Closes 8 0 1 _ _ (omega arith) (read_currency-Reads sdk true)
        λ _. then-Closes 32 1 1 _ _ (omega arith) (read_hash-Reads sdk true) λ _. shown-Closes

  fund_output-Closes : Closes 0 (read_elem sdk sf_output)
  unfolding read_elem
  fund_output-Closes = then-Closes 8 0 1 _ _ (omega arith) (read_currency-Reads sdk true) λ _.
      then-Closes 32 1 1 _ _ (omega arith) (read_hash-Reads sdk true)
        λ _. then-Closes 8 1 1 _ _ (omega arith) (read_currency-Reads sdk false) λ _. shown-Closes

  fee-Closes : Closes 0 (read_elem sdk miner_fee)
  unfolding read_elem
  fee-Closes =
      then-Closes 8 0 1 _ _ (omega arith) (read_currency-Reads sdk true)
        λ _. then-Closes 0 1 1 _ _ (omega arith) label_fee-Reads λ _. shown-Closes

  coin_input-Closes : Closes 0 (read_elem sdk sc_input)
  unfolding read_elem
  coin_input-Closes =
      then-Closes 32 0 1 _ _ (omega arith) (read_hash-Reads sdk false) λ _.
        then-Closes 8 1 1 _ _ (omega arith) (read_unlock_conditions-Reads sdk) λ _. input-Closes

  fund_input-Closes : Closes 0 (read_elem sdk sf_input)
  unfolding read_elem
  fund_input-Closes = then-Closes 32 0 1 _ _ (omega arith) (read_hash-Reads sdk false) λ _.
      then-Closes 8 1 1 _ _ (omega arith) (read_unlock_conditions-Reads sdk)
        λ _. then-Closes 32 1 1 _ _ (omega arith) (read_hash-Reads sdk false) λ _. input-Closes

  signature-Closes : Closes 0 (read_elem sdk txn_sig)
  unfolding read_elem
  signature-Closes = then-Closes 32 0 1 _ _ (omega arith) (read_hash-Reads sdk false) λ _.
      then-Closes 8 1 1 _ _ (omega arith) (read_int-Reads sdk) λ _.
        then-Closes 8 1 1 _ _ (omega arith) (read_int-Reads sdk) λ _.
          then-Closes 0 1 1 _ _ (omega arith) (read_covered_fields-Reads sdk) λ _.
            then-Closes 8 1 1 _ _ (omega arith) (read_prefixed_bytes-Reads sdk) λ _. end_elem-Closes

  -- One pass through the `switch`.
  pub read_elem-Takes :
      (e : ElemType) (t : TxnState C)
      → t.elem_type ≡ e
      → IsValid t
      → t.slice_index ≢ t.slice_len
      → Takes 1 t (read_elem sdk e t)
  unfolding read_elem
  read_elem-Takes sc_input t e h ne = closed t (read_elem sdk sc_input) h ne coin_input-Closes
  read_elem-Takes sc_output t e h ne = closed t (read_elem sdk sc_output) h ne output-Closes
  read_elem-Takes sf_input t e h ne = closed t (read_elem sdk sf_input) h ne fund_input-Closes
  read_elem-Takes sf_output t e h ne = closed t (read_elem sdk sf_output) h ne fund_output-Closes
  read_elem-Takes miner_fee t e h ne = closed t (read_elem sdk miner_fee) h ne fee-Closes
  read_elem-Takes txn_sig t e h ne = closed t (read_elem sdk txn_sig) h ne signature-Closes
  read_elem-Takes fc t e h ne = check_absent-Takes t h ne
  read_elem-Takes fcr t e h ne = check_absent-Takes t h ne
  read_elem-Takes sp t e h ne = check_absent-Takes t h ne
  read_elem-Takes arb_data t e h ne = check_absent-Takes t h ne
  read_elem-Takes unset t e h ne =
      let counted = subst (λ e'. Counted e' t.slice_index t.slice_len) e h.counted in
      absurd (omega arith)
  read_elem-Takes beyond t e h ne =
      absurd (subst (λ e'. Counted e' t.slice_index t.slice_len) e h.counted)
