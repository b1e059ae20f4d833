-- ===== src/Txn/CoveredElem.antt =====
-- The elements (src/txn.c): one that is read whole extends the transcript by its bytes, and
-- otherwise nothing is taken.
use app_sia_x.Base.{
  ℕ, ◌+◌, ◌≤◌, ◌≡◌, ◌≢◌, refl, ap, ◌∙◌, arith, true, false, [], ◌∷◌, ◌++◌, append_assoc, Bytes,
  take, All, IsByte, All-split, append-nil, Result, ok, throw, stuck, continue, modify, raise,
  ◌>>=◌, ◌>>◌,
}
use app_sia_x.Sdk.{Sdk, IsSdk}
use app_sia_x.Codes.{TxnDecoderState, err, partial, ready, finished, IsFailure}
use app_sia_x.Txn.State.{
  ElemType, unset, sc_input, sc_output, fc, fcr, sp, sf_input, sf_output, miner_fee, arb_data,
  txn_sig, beyond, is_txn_sig, TxnState, TxnAction,
}
use app_sia_x.Txn.Read.{add_replay_protection}
use app_sia_x.Txn.Decode.{end_elem, check_absent, read_elem}
use app_sia_x.Txn.Readers.{
  Keeps, Ends, Reads, Keeps-refl, Keeps-trans, read_int-Reads, read_currency-Reads, read_hash-Reads,
  read_prefixed_bytes-Reads, read_unlock_conditions-Reads, read_covered_fields-Reads,
}
use app_sia_x.Txn.Advance.{IsValid-IsSeekable, Keeps-IsValid, pending}
use app_sia_x.Txn.Elements.{label_fee-Reads, check_absent-throws}
use app_sia_x.Txn.Transcript.{Log, Logged, rewound}
use app_sia_x.Txn.Encoding.{
  Elem, IsSized, encode_elem, covered_elem, coin_input, coin_output, fund_input, fund_output, fee,
  signature, prefixed, u64_bytes, empty_fields, encode_conditions,
}
use app_sia_x.Txn.Consumes.{Took, Consumes}
use app_sia_x.Txn.Taken.{
  read_int-Consumes, read_prefixed_bytes-Consumes, read_unlock_conditions-Consumes,
  read_covered_fields-Consumes,
}
use app_sia_x.Txn.TakenShown.{read_currency-Consumes, read_hash-Consumes, label_fee-Consumes}
use app_sia_x.Txn.CoveredEnd.{Keeps-joined, plain, replayed, signed}
use app_sia_x.Txn.Absorb.{part}

-- The parts of a signature, as they are taken and as they are encoded.
five : (a b c d e : Bytes) → (((a ++ b) ++ c) ++ d) ++ e ≡ a ++ (b ++ (c ++ (d ++ e)))
five a b c d e =
    append_assoc ((a ++ b) ++ c) d e
    ∙ append_assoc (a ++ b) c (d ++ e)
    ∙ append_assoc a b (c ++ (d ++ e))

module _ {C : Type 0} (sdk : Sdk C) (laws : IsSdk sdk) (sig_index : ℕ) (input : Bytes)
    (t : TxnState C) (log : Log sdk sig_index input t) (ne : t.slice_index ≢ t.slice_len) where
  Keeps-Log : (u : TxnState C) → Keeps t u → Log sdk sig_index input (rewound sdk u)
  Keeps-Log u keep =
      let kept = Keeps-IsValid keep log.valid in
      record {
        read = log.read;
        hashed = log.hashed;
        transcript =
            rw (keep.same_elem_type, keep.same_slice_len, keep.same_slice_index) log.transcript;
        joined = Keeps-joined sdk laws sig_index input t log ne u keep;
        blake = keep.same_blake ∙ log.blake;
        bytes = log.bytes;
        valid = record {
          cap = kept.cap;
          fits = kept.fits;
          seeked = omega arith;
          counted = kept.counted;
        };
        same_sig_index = keep.same_sig_index ∙ log.same_sig_index;
        hash_size = rw keep.same_sig_hash log.hash_size;
        at_front = refl;
      }

  failed :
      (e : TxnDecoderState) (u : TxnState C)
      → IsFailure e
      → Keeps t u
      → Logged sdk sig_index input (throw e, u)
  failed err u f keep = tt
  failed partial u f keep = Keeps-Log u keep
  failed ready u f keep = absurd f
  failed finished u f keep = absurd f

  -- What stands behind readers that have taken `xs`, of `k` bytes at least.
  record Leads (k : ℕ) (xs : Bytes) (m : TxnAction C (Unit {0})) : Type 0 where
    leads :
        (u : TxnState C) → Keeps t u → k ≤ u.pos → part u ≡ xs → Logged sdk sig_index input (m u)

  read_on :
      {A : Type 0} (j k : ℕ) (xs : Bytes) (G : A → Bytes → Type 0) (f : A → TxnAction C (Unit {0}))
      → ((a : A) (bs : Bytes) → G a bs → Leads (k + j) (xs ++ bs) (f a))
      → (u : TxnState C) → Keeps t u
      → k ≤ u.pos
      → part u ≡ xs
      → (res : Result TxnDecoderState A × TxnState C) → Ends j u res
      → Took G u res
      → Logged sdk sig_index input (continue f res)
  read_on j k xs G f rest u keep p e (ok a, v) (keep', q) (bs, _, g, e') =
      (rest a bs g).leads v (Keeps-trans keep keep') (omega arith) (e' ∙ ap (λ b. b ++ bs) e)
  read_on j k xs G f rest u keep p e (throw x, v) (keep', fails) took =
      failed x v fails (Keeps-trans keep keep')
  read_on j k xs G f rest u keep p e (stuck, v) h took = tt

  pending_bytes : (u : TxnState C) → Keeps t u → All IsByte (pending u)
  pending_bytes u keep =
      let whole : All IsByte (log.read ++ pending u) =
        rw (Keeps-joined sdk laws sig_index input t log ne u keep) log.bytes in
      (All-split IsByte log.read (pending u) whole).1

  then-Leads :
      {A : Type 0} (j k : ℕ) (xs : Bytes) (G : A → Bytes → Type 0) (m : TxnAction C A)
      (f : A → TxnAction C (Unit {0}))
      → Reads j m
      → Consumes G m
      → ((a : A) (bs : Bytes) → G a bs → Leads (k + j) (xs ++ bs) (f a))
      → Leads k xs (m >>= f)
  then-Leads j k xs G m f h c rest = record {
    leads = λ u keep p e.
        let valid = Keeps-IsValid keep log.valid in
        read_on j k xs G f rest u keep p e (m u) (h.ends u (IsValid-IsSeekable valid))
          (c.takes u valid (pending_bytes u keep));
  }

  -- Bytes that are the encoding of an element of a type.
  abbrev IsEncoded : ElemType → Bytes → Type 0
  IsEncoded e bs = (x : Elem e) × IsSized x × (bs ≡ encode_elem x)

  -- The ends of the cases of the `switch`.
  shown_end :
      (k : ℕ) (xs : Bytes)
      → 1 ≤ k
      → is_txn_sig t.elem_type ≡ false
      → ((part : Bytes) → covered_elem sig_index t.elem_type t.slice_index part ≡ part)
      → IsEncoded t.elem_type xs
      → Leads k xs (modify (end_elem sdk) >> raise ready)
  shown_end k xs le other e (x, sized, whole) = record {
    leads = λ u keep p same.
        plain sdk laws sig_index input t log ne u x keep (omega arith) sized (same ∙ whole) other
          (e (part u));
  }

  input_end :
      (k : ℕ) (xs : Bytes)
      → 1 ≤ k
      → is_txn_sig t.elem_type ≡ false
      → ((part : Bytes) → covered_elem sig_index t.elem_type t.slice_index part ≡ 1 ∷ part)
      → IsEncoded t.elem_type xs
      → Leads k xs (modify (add_replay_protection sdk) >> modify (end_elem sdk))
  input_end k xs le other e (x, sized, whole) = record {
    leads = λ u keep p same.
        replayed sdk laws sig_index input t log ne u x keep (omega arith) sized (same ∙ whole) other
          (e (part u));
  }

  signature_end :
      (k : ℕ) (xs : Bytes)
      → 48 ≤ k
      → t.elem_type ≡ txn_sig
      → IsEncoded t.elem_type xs
      → Leads k xs (modify (end_elem sdk))
  signature_end k xs le sig (x, sized, whole) = record {
    leads = λ u keep p same.
        signed sdk laws sig_index input t log ne u x keep (omega arith) sized (same ∙ whole) sig;
  }

  led : (m : TxnAction C (Unit {0})) → Leads 0 [] m → Logged sdk sig_index input (m t)
  led m c =
      c.leads t (Keeps-refl t (IsValid-IsSeekable log.valid)) (omega arith)
        (ap (λ p. take p t.buf) log.at_front)

  absent : Logged sdk sig_index input (check_absent sdk t)
  absent = rw (check_absent-throws sdk t log.valid ne) tt

  -- One pass through the `switch`.
  pub read_elem-Logged :
      (e : ElemType) → t.elem_type ≡ e → Logged sdk sig_index input (read_elem sdk e t)
  unfolding read_elem
  read_elem-Logged sc_output e = led (read_elem sdk sc_output) (
      then-Leads 8 0 [] _ _ _ (read_currency-Reads sdk true) (read_currency-Consumes sdk laws true)
        λ _ xs (value, small, e1).
          then-Leads 32 8 _ _ _ _ (read_hash-Reads sdk true) (read_hash-Consumes sdk true)
            λ _ bs e2.
              shown_end 40 _ (omega arith) (rw e refl) (λ part. rw e refl)
                (rw e (coin_output value bs, (small, e2), rw e1 refl)))
  read_elem-Logged sf_output e = led (read_elem sdk sf_output) (
      then-Leads 8 0 [] _ _ _ (read_currency-Reads sdk true) (read_currency-Consumes sdk laws true)
        λ _ xs (value, small, e1).
          then-Leads 32 8 _ _ _ _ (read_hash-Reads sdk true) (read_hash-Consumes sdk true)
            λ _ bs e2.
              then-Leads 8 40 _ _ _ _ (read_currency-Reads sdk false)
                (read_currency-Consumes sdk laws false)
                λ _ ys (claim, small', e3).
                  shown_end 48 _ (omega arith) (rw e refl) (λ part. rw e refl)
                    (rw e (
                      fund_output value bs claim,
                      (small, e2, small'),
                      rw (e1, e3) (append_assoc (prefixed value) bs (prefixed claim)),
                    )))
  read_elem-Logged miner_fee e = led (read_elem sdk miner_fee) (
      then-Leads 8 0 [] _ _ _ (read_currency-Reads sdk true) (read_currency-Consumes sdk laws true)
        λ _ xs (value, small, e1).
          then-Leads 0 8 _ _ _ _ (label_fee-Reads sdk) (label_fee-Consumes sdk) λ _ bs none.
            shown_end 8 _ (omega arith) (rw e refl) (λ part. rw e refl)
              (rw e (fee value, small, rw (none, e1) (append-nil (prefixed value)))))
  read_elem-Logged sc_input e = led (read_elem sdk sc_input) (
      then-Leads 32 0 [] _ _ _ (read_hash-Reads sdk false) (read_hash-Consumes sdk false) λ _ xs e1.
        then-Leads 8 32 _ _ _ _ (read_unlock_conditions-Reads sdk)
          (read_unlock_conditions-Consumes sdk laws)
          λ _ bs (c, good, e2).
            input_end 40 _ (omega arith) (rw e refl) (λ part. rw e refl)
              (rw e (coin_input xs c, (e1, good), rw e2 refl)))
  read_elem-Logged sf_input e = led (read_elem sdk sf_input) (
      then-Leads 32 0 [] _ _ _ (read_hash-Reads sdk false) (read_hash-Consumes sdk false) λ _ xs e1.
        then-Leads 8 32 _ _ _ _ (read_unlock_conditions-Reads sdk)
          (read_unlock_conditions-Consumes sdk laws)
          λ _ bs (c, good, e2).
            then-Leads 32 40 _ _ _ _ (read_hash-Reads sdk false) (read_hash-Consumes sdk false)
              λ _ ys e3.
                input_end 72 _ (omega arith) (rw e refl) (λ part. rw e refl)
                  (rw e (
                    fund_input xs c ys,
                    (e1, good, e3),
                    rw e2 (append_assoc xs (encode_conditions c) ys),
                  )))
  read_elem-Logged txn_sig e = led (read_elem sdk txn_sig) (
      then-Leads 32 0 [] _ _ _ (read_hash-Reads sdk false) (read_hash-Consumes sdk false) λ _ xs e1.
        then-Leads 8 32 _ _ _ _ (read_int-Reads sdk) (read_int-Consumes sdk laws)
          λ index ys (less, e2).
            then-Leads 8 40 _ _ _ _ (read_int-Reads sdk) (read_int-Consumes sdk laws)
              λ timelock zs (less', e3).
                then-Leads 0 48 _ _ _ _ (read_covered_fields-Reads sdk)
                  (read_covered_fields-Consumes sdk laws)
                  λ _ fields e4.
                    then-Leads 8 48 _ _ _ _ (read_prefixed_bytes-Reads sdk)
                      (read_prefixed_bytes-Consumes sdk laws)
                      λ _ ws (sig, small, e5). signature_end 56 _ (omega arith) e (
                        rw e (
                          signature xs index timelock sig,
                          (e1, less, less', small),
                          rw (e2, e3, e4, e5)
                              (five xs (u64_bytes index) (u64_bytes timelock) (1 ∷ empty_fields 10)
                                (prefixed sig)),
                        )))
  read_elem-Logged fc e = absent
  read_elem-Logged fcr e = absent
  read_elem-Logged sp e = absent
  read_elem-Logged arb_data e = absent
  read_elem-Logged unset e = log
  read_elem-Logged beyond e = log
