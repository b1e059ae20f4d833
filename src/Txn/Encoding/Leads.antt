-- ===== src/Txn/Encoding/Leads.antt =====
-- An element at the front of the stream (src/txn.c), whose fields are read one behind the other.
use app_sia_x.Base.{
  ℕ, ◌+◌, ◌<◌, ◌≡◌, ◌≢◌, refl, ap, ◌∙◌, arith, List, [], ◌++◌, append-nil, append_assoc, Bytes,
  length, length-append, drop, u16, Result, continue, ◌>>=◌,
}
use mathlib.Core.Path.{subst}
use app_sia_x.Sdk.{Sdk, IsSdk}
use app_sia_x.Codes.{TxnDecoderState}
use app_sia_x.Txn.State.{ElemType, TxnState, TxnAction}
use app_sia_x.Txn.Advance.{Keeps-IsValid, pending}
use app_sia_x.Txn.Encoding.{Elem, Display, displays, encode_elem, IsElem, covered_elem}
use app_sia_x.Txn.Encoding.Parses.{
  unread, Kept, Kept-refl, Kept-trans, Parsed, whole, short, Parses, unread_after,
}
use app_sia_x.Txn.Encoding.Shown.{screen_of, IsSized}
use app_sia_x.Txn.Encoding.Stage.{Remains, at_elem, Stage, Waits, waits, Outcome}

-- The decoder at an element of the stream.
module _ {C : Type 0} (sdk : Sdk C) (sig_index : ℕ) (all future : Bytes) where
  pub record AtElem {e : ElemType} (n i head : ℕ) (bs cs : Bytes) (ds : List Display) (x : Elem e)
      (t : TxnState C) : Type 0 where
    pub off_edge : i ≢ n
    pub is_elem : IsElem x
    pub rest : Remains sig_index e n (u16 (i + 1)) bs cs head ds
    pub stage :
        Stage sdk sig_index all future e n i
          (encode_elem x ++ bs)
          (covered_elem sig_index e i (encode_elem x) ++ cs)
          t
    pub room : t.buflen < 255 + length (encode_elem x)

module _ {C : Type 0} (sdk : Sdk C) (laws : IsSdk sdk) {sig_index : ℕ} {all future : Bytes}
    {e : ElemType} {n i head : ℕ} {bs cs : Bytes} {ds : List Display} {x : Elem e} {t : TxnState C}
    (here : AtElem sdk sig_index all future n i head bs cs ds x t) where
  pub sized : (u : TxnState C) → Kept t u → IsSized (screen_of u)
  sized u kept = (kept.same_val_size ∙ here.stage.sized.0, kept.same_addr_size ∙ here.stage.sized.1)

  -- The element is cut off.
  cut_off :
      (u : TxnState C)
      → Kept t u
      → t.buflen < length (encode_elem x)
      → Waits sdk sig_index all future (displays x ++ ds) t.buflen u
  cut_off u kept few =
      let keep = kept.keeps in
      let valid = Keeps-IsValid keep here.stage.valid in
      waits (at_elem x here.off_edge here.is_elem here.rest)
        (record {
          same_elem_type = keep.same_elem_type ∙ here.stage.same_elem_type;
          same_slice_len = keep.same_slice_len ∙ here.stage.same_slice_len;
          same_slice_index = keep.same_slice_index ∙ here.stage.same_slice_index;
          same_sig_index = keep.same_sig_index ∙ here.stage.same_sig_index;
          valid = record {
            cap = valid.cap;
            fits = valid.fits;
            seeked = omega arith;
            counted = valid.counted;
          };
          at_front = refl;
          stream = rw (keep.same_buf, keep.same_buflen) here.stage.stream;
          hashed = here.stage.hashed;
          blake = keep.same_blake ∙ here.stage.blake;
          covered_all = here.stage.covered_all;
          hash_size = rw keep.same_sig_hash here.stage.hash_size;
          sized = sized u kept;
        })
        (omega (arith, keep.same_buflen)) (omega (arith, keep.same_buflen))

  -- What stands behind readers that have left `ys` of the element.
  pub record Leads (P : TxnState C → Type 0) (ys : Bytes) (m : TxnAction C (Unit {0}))
      : Type 0 where
    pub leads :
        (u : TxnState C)
        → Kept t u
        → u.pos + length ys ≡ length (encode_elem x)
        → P u
        → unread u ++ future ≡ ys ++ bs
        → Outcome sdk sig_index all future (displays x ++ ds) t.buflen (m u)

  module _ {A : Type 0} (f : A → TxnAction C (Unit {0})) (xs ys : Bytes) (a : A)
      {P Q : TxnState C → Type 0} {R : TxnState C → TxnState C → Type 0}
      (step : (u v : TxnState C) → Kept t u → P u → R u v → Q v) where
    read_on :
        (u : TxnState C)
        → Kept t u
        → u.pos + length (xs ++ ys) ≡ length (encode_elem x)
        → P u
        → unread u ++ future ≡ xs ++ (ys ++ bs)
        → Leads Q ys (f a)
        → (res : Result TxnDecoderState A × TxnState C) → Parsed (length xs) a R u res
        → Outcome sdk sig_index all future (displays x ++ ds) t.buflen (continue f res)
    read_on u kept count p s g _ (whole v fits keep q r) =
        let valid = Keeps-IsValid kept.keeps here.stage.valid in
        g.leads v (Kept-trans t u v kept keep) (omega (arith, length-append xs ys))
          (step u v kept p r) (unread_after u v xs (ys ++ bs) future valid keep.keeps fits q s)
    read_on u kept count p s g _ (short v few keep) =
        cut_off v (Kept-trans t u v kept keep)
          (omega (arith, length-append xs ys, kept.keeps.same_buflen))

    pub then-Leads :
        (m : TxnAction C A) → Parses m xs a R → Leads Q ys (f a) → Leads P (xs ++ ys) (m >>= f)
    then-Leads m h g = record {
      leads = λ u kept count p s.
          let s' = s ∙ append_assoc xs ys bs in
          read_on u kept count p s' g (m u)
            (h.run u future (ys ++ bs) (Keeps-IsValid kept.keeps here.stage.valid) s');
    }

  -- The last of the readers.
  pub last-Leads :
      {A : Type 0} (f : A → TxnAction C (Unit {0})) (xs : Bytes) (a : A) {P Q : TxnState C → Type 0}
      {R : TxnState C → TxnState C → Type 0}
      → ((u v : TxnState C) → Kept t u → P u → R u v → Q v)
      → (m : TxnAction C A) → Parses m xs a R
      → Leads Q [] (f a)
      → Leads P xs (m >>= f)
  last-Leads f xs a {P} step m h g =
      subst (λ b. Leads P b (m >>= f)) (append-nil xs) (then-Leads f xs [] a step m h g)

  -- The whole of the readers.
  pub led :
      (P : TxnState C → Type 0) (m : TxnAction C (Unit {0}))
      → P t
      → Leads P (encode_elem x) m
      → Outcome sdk sig_index all future (displays x ++ ds) t.buflen (m t)
  led P m p c =
      let unmoved : unread t ≡ pending t = ap (λ k. drop k (pending t)) here.stage.at_front in
      c.leads t (Kept-refl t here.stage.valid) (omega (arith, here.stage.at_front)) p
        (ap (λ b. b ++ future) unmoved ∙ here.stage.stream)
