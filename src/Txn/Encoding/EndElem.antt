-- ===== src/Txn/Encoding/EndElem.antt =====
-- The end of an element of the stream (src/txn.c): `advance` drops it and hashes what is covered of
-- it, and the next one is there.
use app_sia_x.Base.{
  ℕ, ◌+◌, ◌-◌, ◌≤◌, ◌<◌, ◌≡◌, ◌≢◌, ◌==◌, if◌then◌else◌, refl, sym, ap, ◌∙◌, arith, false, List, [],
  ◌∷◌, ◌++◌, append_assoc, Bytes, length, take, u16, modify, raise, ◌>>◌,
}
use mathlib.Core.Path.{subst}
use app_sia_x.Sdk.{Sdk, IsSdk}
use app_sia_x.Codes.{ready}
use app_sia_x.Blake2b.{blake2b_init, blake2b_update}
use app_sia_x.Txn.State.{ElemType, txn_sig, is_txn_sig, TxnState}
use app_sia_x.Txn.Read.{add_replay_protection}
use app_sia_x.Txn.Decode.{absorb, advance, end_elem}
use app_sia_x.Txn.Advance.{IsValid, Keeps-IsValid, buflen-advance, pending-advance}
use app_sia_x.Txn.Elements.{end_elem_lem}
use app_sia_x.Txn.Absorb.{part, absorb-plain, absorb-replayed, absorb-signed}
use app_sia_x.Txn.Encoding.{Elem, Display, displays, encode_elem, covered_elem}
use app_sia_x.Txn.Encoding.Parses.{unread, Kept}
use app_sia_x.Txn.Encoding.Fields.{buffered}
use app_sia_x.Txn.Encoding.Shown.{screen_of}
use app_sia_x.Txn.Encoding.Stage.{IsShown, Shows, Stage, Stands, stands}
use app_sia_x.Txn.Encoding.Leads.{AtElem, sized, Leads}

module _ {C : Type 0} (sdk : Sdk C) (laws : IsSdk sdk) {sig_index : ℕ} {all future : Bytes}
    {e : ElemType} {n i head : ℕ} {bs cs : Bytes} {ds : List Display} {x : Elem e} {t : TxnState C}
    (here : AtElem sdk sig_index all future n i head bs cs ds x t) where
  -- The end of the element, whose hash context may already hold the replay prefix.
  module _ (u : TxnState C) (kept : Kept t u) (count : u.pos + 0 ≡ length (encode_elem x))
      (s : unread u ++ future ≡ bs) (some_byte : 1 ≤ length (encode_elem x)) where
    part-eq : part u ≡ encode_elem x
    part-eq =
        let front =
          buffered t future (encode_elem x) bs here.stage.valid
            (rw here.stage.at_front here.stage.stream)
            (omega (arith, here.stage.at_front, kept.keeps.inside, kept.keeps.same_buflen)) in
        let pos : u.pos ≡ length (encode_elem x) = omega arith in
        ap (take u.pos) kept.keeps.same_buf
        ∙ ap (λ k. take k t.buf) pos
        ∙ (rw here.stage.at_front at front)

    module _ (c : C)
        (absorbed : absorb sdk (record u { blake = c })
          ≡ blake2b_update sdk
              (blake2b_init sdk)
              (here.stage.hashed ++ covered_elem sig_index e i (encode_elem x))) where
      abbrev ended : TxnState C
      ended = end_elem sdk (record u { blake = c })

      ended_lem : IsValid ended × (ended.buflen + 1 ≤ t.buflen)
      ended_lem =
          let keep = kept.keeps in
          let valid = Keeps-IsValid keep here.stage.valid in
          let valid_v : IsValid (record u { blake = c }) = record {
            cap = valid.cap;
            fits = valid.fits;
            seeked = valid.seeked;
            counted = valid.counted;
          } in
          let ne_t : t.slice_index ≢ t.slice_len =
            omega (arith, here.stage.same_slice_index, here.stage.same_slice_len) in
          end_elem_lem sdk t (record u { blake = c }) here.stage.valid ne_t valid_v
            keep.same_elem_type keep.same_slice_len keep.same_buflen (omega arith)

      ended-Stage : Stage sdk sig_index all future e n (u16 (i + 1)) bs cs ended
      unfolding end_elem advance
      ended-Stage =
          let keep = kept.keeps in
          let valid = Keeps-IsValid keep here.stage.valid in
          let v = record u { blake = c } in
          record {
            same_elem_type = keep.same_elem_type ∙ here.stage.same_elem_type;
            same_slice_len = keep.same_slice_len ∙ here.stage.same_slice_len;
            same_slice_index =
                ap (λ k. u16 (k + 1)) (keep.same_slice_index ∙ here.stage.same_slice_index);
            same_sig_index = keep.same_sig_index ∙ here.stage.same_sig_index;
            valid = ended_lem.0;
            at_front = refl;
            stream =
                ap (λ b. b ++ future)
                  (pending-advance sdk v (record { seeked = valid.seeked; fits = valid.fits })
                    valid.cap)
                ∙ s;
            hashed = here.stage.hashed ++ covered_elem sig_index e i (encode_elem x);
            blake = absorbed;
            covered_all =
                append_assoc here.stage.hashed (covered_elem sig_index e i (encode_elem x)) cs
                ∙ here.stage.covered_all;
            hash_size = rw keep.same_sig_hash here.stage.hash_size;
            sized = sized sdk laws here u kept;
          }

      ended_free : ended.buflen < 255
      unfolding end_elem
      ended_free =
          let valid = Keeps-IsValid kept.keeps here.stage.valid in
          let left : ended.buflen ≡ u.buflen - u.pos =
            buflen-advance sdk (record u { blake = c })
              (record { seeked = valid.seeked; fits = valid.fits }) valid.cap in
          omega (arith, left, here.room, kept.keeps.same_buflen)

      ended-Stands :
          (bound : ℕ) → ended.buflen ≤ bound → Stands sdk sig_index all future ds bound ended
      ended-Stands bound le = stands here.rest ended-Stage (omega (arith, ended_free)) le

  -- The cases of the `switch`.
  same_screen : (u : TxnState C) → screen_of (end_elem sdk u) ≡ screen_of u
  unfolding end_elem advance
  same_screen u = refl

  covers :
      (u : TxnState C)
      → Kept t u
      → u.blake ≡ blake2b_update sdk (blake2b_init sdk) here.stage.hashed
  covers u kept = kept.keeps.same_blake ∙ here.stage.blake

  kind : (u : TxnState C) → Kept t u → u.elem_type ≡ e
  kind u kept = kept.keeps.same_elem_type ∙ here.stage.same_elem_type

  module _ (some_byte : 1 ≤ length (encode_elem x)) where
    pub shown_end :
        (d : Display)
        → displays x ≡ d ∷ []
        → is_txn_sig e ≡ false
        → IsShown e
        → covered_elem sig_index e i (encode_elem x) ≡ encode_elem x
        → Leads sdk laws here
            (λ u. Shows sdk d (screen_of u))
            []
            (modify (end_elem sdk) >> raise ready)
    unfolding end_elem advance
    shown_end d order other output plain = record {
      leads = λ u kept count p s.
          let same : is_txn_sig u.elem_type ≡ false = ap is_txn_sig (kind u kept) ∙ other in
          let absorbed =
            absorb-plain sdk laws u here.stage.hashed (covers u kept) same
            ∙ ap (λ b. blake2b_update sdk (blake2b_init sdk) (here.stage.hashed ++ b))
                (part-eq u kept count s some_byte ∙ sym plain) in
          record {
            first = d;
            others = ds;
            order = ap (λ k. k ++ ds) order;
            shows = subst (Shows sdk d) (sym (same_screen u)) p;
            then = ended-Stands u kept count s some_byte u.blake absorbed _ (omega arith);
            taken = omega (arith, (ended_lem u kept count s some_byte u.blake absorbed).1);
            free = ended_free u kept count s some_byte u.blake absorbed;
            kind = subst IsShown (sym (kind u kept)) output;
          };
    }

    pub input_end :
        (P : TxnState C → Type 0)
        → displays x ≡ []
        → is_txn_sig e ≡ false
        → covered_elem sig_index e i (encode_elem x) ≡ 1 ∷ encode_elem x
        → Leads sdk laws here P [] (modify (add_replay_protection sdk) >> modify (end_elem sdk))
    unfolding add_replay_protection
    input_end P none other replayed = record {
      leads = λ u kept count p s.
          let same : is_txn_sig u.elem_type ≡ false = ap is_txn_sig (kind u kept) ∙ other in
          let c = blake2b_update sdk u.blake (1 ∷ []) in
          let absorbed =
            absorb-replayed sdk laws u here.stage.hashed (covers u kept) same
            ∙ ap (λ b. blake2b_update sdk (blake2b_init sdk) (here.stage.hashed ++ b))
                (ap (◌∷◌ 1) (part-eq u kept count s some_byte) ∙ sym replayed) in
          rw none (
            ended-Stands u kept count s some_byte c absorbed t.buflen
              (omega (arith, (ended_lem u kept count s some_byte c absorbed).1)));
    }

    pub signature_end :
        (P : TxnState C → Type 0)
        → displays x ≡ []
        → e ≡ txn_sig
        → 48 ≤ length (encode_elem x)
        → Leads sdk laws here P [] (modify (end_elem sdk))
    signature_end P none sig long = record {
      leads = λ u kept count p s.
          let same : u.elem_type ≡ txn_sig = kind u kept ∙ sig in
          let index : u.slice_index ≡ i =
            kept.keeps.same_slice_index ∙ here.stage.same_slice_index in
          let number : u.sig_index ≡ sig_index =
            kept.keeps.same_sig_index ∙ here.stage.same_sig_index in
          let bytes = encode_elem x in
          let absorbed =
            absorb-signed sdk laws u here.stage.hashed (covers u kept) same (omega arith)
            ∙ ap (λ b. blake2b_update sdk (blake2b_init sdk) (here.stage.hashed ++ b))
                (ap (λ k. if k == u.sig_index then take 48 (part u) else []) index
                  ∙ ap (λ k. if i == k then take 48 (part u) else []) number
                  ∙ ap (λ b. if i == sig_index then take 48 b else [])
                      (part-eq u kept count s some_byte)
                  ∙ sym (ap (λ k. covered_elem sig_index k i bytes) sig)) in
          rw none (
            ended-Stands u kept count s some_byte u.blake absorbed t.buflen
              (omega (arith, (ended_lem u kept count s some_byte u.blake absorbed).1)));
    }
