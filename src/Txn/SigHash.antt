-- ===== src/Txn/SigHash.antt =====
-- The SigHash (src/txn.c): what the decoder has hashed when it says that a transaction is finished.
use app_sia_x.Base.{
  ℕ, zero, suc, ◌+◌, ◌≤◌, ◌≡◌, refl, sym, ap, ◌∙◌, arith, inl, inr, Bool, true, false, Bool-cases,
  ltb, [], ◌++◌, append_assoc, Bytes, length, All, All-append, IsByte, length-replicate, le→ltb,
  Result, ok, throw, stuck, continue,
}
use app_sia_x.Sdk.{Sdk, IsSdk}
use app_sia_x.Codes.{TxnDecoderState, err, partial, ready, finished}
use app_sia_x.Blake2b.{blake2b_init, blake2b_update}
use app_sia_x.Txn.State.{TxnState, buf_size}
use app_sia_x.Txn.Decode.{
  next_slices, switch_elem, decode_elem, decode_elems, catch_state, txn_next_elem, txn_init,
  txn_update,
}
use app_sia_x.Txn.Advance.{pending, txn_init-IsValid, txn_update_lem}
use app_sia_x.Txn.Transcript.{nothing, Log, Log-rewound, Finished, Logged, rewound}
use app_sia_x.Txn.Covered.{LoggedElem, next_slices-LoggedElem}
use app_sia_x.Txn.CoveredElem.{read_elem-Logged}

module _ {C : Type 0} (sdk : Sdk C) (laws : IsSdk sdk) where
  module _ (sig_index : ℕ) (input : Bytes) where
    read_next :
        (res : Result TxnDecoderState (Unit {0}) × TxnState C)
        → LoggedElem sdk laws sig_index input res
        → Logged sdk sig_index input (continue (λ _. switch_elem sdk) res)
    unfolding switch_elem
    read_next (ok _, u) (log, ne) =
        read_elem-Logged sdk laws sig_index input u log ne u.elem_type refl
    read_next (throw e, u) h = h
    read_next (stuck, u) h = h

    decode_elem-Logged :
        (t : TxnState C)
        → Log sdk sig_index input t
        → Logged sdk sig_index input (decode_elem sdk t)
    unfolding decode_elem
    decode_elem-Logged t log =
        read_next (next_slices sdk (t.buflen + 1) t)
          (next_slices-LoggedElem sdk laws sig_index input (t.buflen + 1) t log)

    more_elems :
        (fuel : ℕ) (res : Result TxnDecoderState (Unit {0}) × TxnState C)
        → ((u : TxnState C)
            → Log sdk sig_index input u
            → Logged sdk sig_index input (decode_elems sdk fuel u))
        → Logged sdk sig_index input res
        → Logged sdk sig_index input (continue (λ _. decode_elems sdk fuel) res)
    more_elems fuel (ok _, u) rest log = rest u log
    more_elems fuel (throw e, u) rest log = log
    more_elems fuel (stuck, u) rest log = tt

    decode_elems-Logged :
        (fuel : ℕ) (t : TxnState C)
        → Log sdk sig_index input t
        → Logged sdk sig_index input (decode_elems sdk fuel t)
    unfolding decode_elems
    decode_elems-Logged zero t log = tt
    decode_elems-Logged (suc fuel) t log =
        more_elems fuel (decode_elem sdk t) (decode_elems-Logged fuel) (decode_elem-Logged t log)

    -- What each result of `txn_next_elem` says. An error ends the session of an honest computer.
    abbrev pub Decoded : Result ℕ TxnDecoderState → TxnState C → Type 0
    Decoded (ok finished) t = Finished sdk sig_index input t
    Decoded (ok ready) t = Log sdk sig_index input t
    Decoded (ok partial) t = Log sdk sig_index input (rewound sdk t)
    Decoded _ t = Unit {0}

    caught :
        (res : Result TxnDecoderState (Unit {0}) × TxnState C)
        → Logged sdk sig_index input res
        → Decoded (catch_state res.0 res.1.buflen) res.1
    unfolding catch_state
    caught (ok _, t) h = tt
    caught (throw e, t) h = elim (Bool-cases (ltb buf_size (t.buflen + 255))) [
      | inl full ↦ rw full tt
      | inr free ↦ rw free (by_state e h)
    ]
      where
        by_state :
            (e : TxnDecoderState) → Logged sdk sig_index input (throw e, t) → Decoded (ok e) t
        by_state finished h = h
        by_state ready h = h
        by_state partial h = h
        by_state err h = tt
    caught (stuck, t) h = tt

    pub txn_next_elem-Decoded :
        (t : TxnState C)
        → Log sdk sig_index input t
        → let (r, t') = txn_next_elem sdk t in Decoded r t'
    unfolding txn_next_elem
    txn_next_elem-Decoded t log =
        caught (decode_elems sdk (t.buflen + 1) t) (decode_elems-Logged (t.buflen + 1) t log)

  -- The decoder of a session. It is fed with packets, and called again until it asks for more, and
  -- then only behind the next packet, up to the first error: `waiting` says that it has asked.
  pub data Fed (sig_index : ℕ) : Bool → Bytes → TxnState C → Type 0 where
    started : Fed sig_index false [] (txn_init sdk sig_index)
    update :
        {waiting : Bool} {input : Bytes} {t : TxnState C} (bin : Bytes)
        → All IsByte bin
        → t.buflen + length bin ≤ buf_size
        → Fed sig_index waiting input t
        → Fed sig_index false (input ++ bin) (txn_update bin t).1
    shown :
        {input : Bytes} {t : TxnState C}
        → (txn_next_elem sdk {E = ℕ} t).0 ≡ ok ready
        → Fed sig_index false input t
        → Fed sig_index false input (txn_next_elem sdk {E = ℕ} t).1
    asked :
        {input : Bytes} {t : TxnState C}
        → (txn_next_elem sdk {E = ℕ} t).0 ≡ ok partial
        → Fed sig_index false input t
        → Fed sig_index true input (txn_next_elem sdk {E = ℕ} t).1

  pub txn_init-Log : (sig_index : ℕ) → Log sdk sig_index [] (txn_init sdk sig_index)
  unfolding txn_init blake2b_update
  txn_init-Log sig_index = record {
    read = [];
    hashed = [];
    transcript = nothing;
    joined = refl;
    blake = sym (laws.hash_nothing (blake2b_init sdk));
    bytes = tt;
    valid = txn_init-IsValid sdk sig_index;
    same_sig_index = refl;
    hash_size = length-replicate {A = ℕ} 32 0;
    at_front = refl;
  }

  -- A packet is appended, and the element that has been begun is read from its front.
  pub txn_update-Log :
      (sig_index : ℕ) (input bin : Bytes) (t : TxnState C)
      → All IsByte bin
      → t.buflen + length bin ≤ buf_size
      → Log sdk sig_index input (rewound sdk t)
      → Log sdk sig_index (input ++ bin) (txn_update bin t).1
  unfolding txn_update
  txn_update-Log sig_index input bin t bytes room log =
      let fit = le→ltb buf_size (t.buflen + length bin) room in
      elim (txn_update_lem bin (rewound sdk t) log.valid) [
        | inl (_, _, front, _, valid) ↦ rw fit (record {
          read = log.read;
          hashed = log.hashed;
          transcript = log.transcript;
          joined =
              ap (◌++◌ log.read) (rw fit at front)
              ∙ sym (append_assoc log.read (pending t) bin)
              ∙ ap (λ b. b ++ bin) log.joined;
          blake = log.blake;
          bytes = All-append IsByte input bin log.bytes bytes;
          valid = rw fit at valid;
          same_sig_index = log.same_sig_index;
          hash_size = log.hash_size;
          at_front = refl;
        })
        | inr (full, _, _) ↦ absurd (omega arith)
      ]

  -- What is known of a decoder that waits for a packet, and of one that does not.
  abbrev pub LogOf : ℕ → Bool → Bytes → TxnState C → Type 0
  LogOf sig_index true input t = Log sdk sig_index input (rewound sdk t)
  LogOf sig_index false input t = Log sdk sig_index input t

  pub rewind :
      (sig_index : ℕ) (waiting : Bool) (input : Bytes) (t : TxnState C)
      → LogOf sig_index waiting input t
      → Log sdk sig_index input (rewound sdk t)
  rewind sig_index true input t log = log
  rewind sig_index false input t log = Log-rewound sdk sig_index input t log

  pub Fed-LogOf :
      (sig_index : ℕ) (waiting : Bool) (input : Bytes) (t : TxnState C)
      → Fed sig_index waiting input t
      → LogOf sig_index waiting input t
  Fed-LogOf sig_index _ _ _ started = txn_init-Log sig_index
  Fed-LogOf sig_index _ _ _ (update bin bytes room fed) =
      txn_update-Log sig_index _ bin _ bytes room
        (rewind sig_index _ _ _ (Fed-LogOf sig_index _ _ _ fed))
  Fed-LogOf sig_index _ input _ (shown e fed) =
      rw e at (txn_next_elem-Decoded sig_index input _ (Fed-LogOf sig_index _ input _ fed))
  Fed-LogOf sig_index _ input _ (asked e fed) =
      rw e at (txn_next_elem-Decoded sig_index input _ (Fed-LogOf sig_index _ input _ fed))

  -- Suppose that since `txn_init` the decoder was fed with packets of bytes that fit into its buffer
  -- and called, after TXN_STATE_PARTIAL only behind a further packet, and that it has reported no
  -- error and now does not wait for a packet. If `txn_next_elem` then says TXN_STATE_FINISHED, the
  -- bytes fed are a transcript and the bytes still buffered: for each element type, in the order of
  -- the enumeration, a length prefix and so many elements in Sia's encoding, up to the last
  -- signature, of which there are more than `sigIndex`. `sigHash` is the BLAKE2b hash of the covered
  -- bytes of that transcript: each prefix but that of the signatures, each input behind the replay
  -- prefix, every other element, and of the signatures the first 48 bytes of the one at `sigIndex`.
  -- This holds for an SDK as documented.
  pub sig_hash_lem :
      (sig_index : ℕ) (input : Bytes) (t : TxnState C)
      → Fed sig_index false input t
      → (txn_next_elem sdk {E = ℕ} t).0 ≡ ok finished
      → Finished sdk sig_index input (txn_next_elem sdk {E = ℕ} t).1
  sig_hash_lem sig_index input t fed e =
      rw e at (txn_next_elem-Decoded sig_index input t (Fed-LogOf sig_index false input t fed))
