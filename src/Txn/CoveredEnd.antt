-- ===== src/Txn/CoveredEnd.antt =====
-- The end of an element (src/txn.c): the element that has been read whole extends the transcript.
use app_sia_x.Base.{
  ℕ, ◌≤◌, ◌≡◌, ◌≢◌, refl, sym, ap, ◌∙◌, arith, false, [], ◌∷◌, ◌++◌, append_assoc, Bytes,
}
use app_sia_x.Sdk.{Sdk, IsSdk}
use app_sia_x.Blake2b.{blake2b_init, blake2b_update}
use app_sia_x.Txn.State.{txn_sig, is_txn_sig, TxnState}
use app_sia_x.Txn.Read.{add_replay_protection}
use app_sia_x.Txn.Decode.{absorb, advance, end_elem}
use app_sia_x.Txn.Readers.{Keeps}
use app_sia_x.Txn.Advance.{IsValid, IsValid-IsSeekable, Keeps-IsValid, pending}
use app_sia_x.Txn.Elements.{end_elem_lem}
use app_sia_x.Txn.Transcript.{take_elem, Log}
use app_sia_x.Txn.Encoding.{Elem, IsSized, encode_elem, covered_elem}
use app_sia_x.Txn.Absorb.{part, advance-splits, absorb-plain, absorb-replayed, absorb-signed}

module _ {C : Type 0} (sdk : Sdk C) (laws : IsSdk sdk) (sig_index : ℕ) (input : Bytes)
    (t : TxnState C) (log : Log sdk sig_index input t) (ne : t.slice_index ≢ t.slice_len) where
  pub Keeps-joined : (u : TxnState C) → Keeps t u → log.read ++ pending u ≡ input
  Keeps-joined u keep = rw (keep.same_buf, keep.same_buflen) log.joined

  -- The end of an element, whose hash context may already hold the replay prefix.
  close :
      (u : TxnState C) (c : C) (x : Elem t.elem_type)
      → Keeps t u
      → 1 ≤ u.pos
      → IsSized x
      → part u ≡ encode_elem x
      → absorb sdk (record u { blake = c })
        ≡ blake2b_update sdk
            (blake2b_init sdk)
            (log.hashed ++ covered_elem sig_index t.elem_type t.slice_index (part u))
      → Log sdk sig_index input (end_elem sdk (record u { blake = c }))
  unfolding end_elem advance
  close u c x keep p sized whole e =
      let kept = Keeps-IsValid keep log.valid in
      let v = record u { blake = c } in
      let bytes = part u in
      let valid_v : IsValid v = record {
        cap = kept.cap;
        fits = kept.fits;
        seeked = kept.seeked;
        counted = kept.counted;
      } in
      let index : u.slice_index ≡ t.slice_index = keep.same_slice_index in
      record {
        read = log.read ++ bytes;
        hashed = log.hashed ++ covered_elem sig_index t.elem_type t.slice_index bytes;
        transcript =
            rw (keep.same_elem_type, keep.same_slice_len, keep.same_slice_index, whole)
              (take_elem x sized ne log.transcript);
        joined =
            append_assoc log.read bytes (pending (advance sdk v))
            ∙ ap (◌++◌ log.read)
                (sym (advance-splits sdk laws v (IsValid-IsSeekable valid_v) kept.cap))
            ∙ Keeps-joined u keep;
        blake = e;
        bytes = log.bytes;
        valid =
            (end_elem_lem sdk t v log.valid ne valid_v keep.same_elem_type keep.same_slice_len
              keep.same_buflen p).0;
        same_sig_index = keep.same_sig_index ∙ log.same_sig_index;
        hash_size = rw keep.same_sig_hash log.hash_size;
        at_front = refl;
      }

  same_kind :
      (u : TxnState C) → Keeps t u → is_txn_sig t.elem_type ≡ false → is_txn_sig u.elem_type ≡ false
  same_kind u keep other = ap is_txn_sig keep.same_elem_type ∙ other

  -- An element that is covered as it is.
  pub plain :
      (u : TxnState C) (x : Elem t.elem_type)
      → Keeps t u
      → 1 ≤ u.pos
      → IsSized x
      → part u ≡ encode_elem x
      → is_txn_sig t.elem_type ≡ false
      → covered_elem sig_index t.elem_type t.slice_index (part u) ≡ part u
      → Log sdk sig_index input (end_elem sdk u)
  plain u x keep p sized whole other e = close u u.blake x keep p sized whole (
      rw e
        (absorb-plain sdk laws u log.hashed (keep.same_blake ∙ log.blake) (same_kind u keep other)))

  -- An input, with the replay prefix.
  pub replayed :
      (u : TxnState C) (x : Elem t.elem_type)
      → Keeps t u
      → 1 ≤ u.pos
      → IsSized x
      → part u ≡ encode_elem x
      → is_txn_sig t.elem_type ≡ false
      → covered_elem sig_index t.elem_type t.slice_index (part u) ≡ 1 ∷ part u
      → Log sdk sig_index input (end_elem sdk (add_replay_protection sdk u))
  unfolding add_replay_protection
  replayed u x keep p sized whole other e =
      close u (blake2b_update sdk u.blake (1 ∷ [])) x keep p sized whole (
        rw e (
          absorb-replayed sdk laws u log.hashed (keep.same_blake ∙ log.blake)
            (same_kind u keep other)))

  -- A signature.
  pub signed :
      (u : TxnState C) (x : Elem t.elem_type)
      → Keeps t u
      → 48 ≤ u.pos
      → IsSized x
      → part u ≡ encode_elem x
      → t.elem_type ≡ txn_sig
      → Log sdk sig_index input (end_elem sdk u)
  signed u x keep p sized whole sig =
      let number : u.sig_index ≡ sig_index = keep.same_sig_index ∙ log.same_sig_index in
      close u u.blake x keep (omega arith) sized whole (
        rw (sig, ← keep.same_slice_index, ← number)
          (absorb-signed sdk laws u log.hashed (keep.same_blake ∙ log.blake)
            (keep.same_elem_type ∙ sig) p))
