-- ===== src/Txn/Encoding/Whole.antt =====
-- A whole transaction, as the decoder (src/txn.c) finds it before the first byte.
use app_sia_x.Base.{
  ℕ, ◌+◌, ◌^◌, ◌<◌, ◌≡◌, refl, sym, arith, false, List, [], ◌∷◌, ◌++◌, append_assoc, Bytes, length,
  u16, All,
}
use mathlib.Core.Path.{subst}
use app_sia_x.Txn.State.{ElemType, unset, sc_input, txn_sig, bump, is_txn_sig}
use app_sia_x.Txn.Encoding.{
  u64_bytes, Elem, Display, displays, encode_elem, encode_elems, encode_slices, encode,
  covered_elems, covered_slices, covered, displays_of_elems, displays_of_slices, approvals,
  later_types, slice_of, Transaction, IsElem, IsTransaction, covered_prefix, covered_elem,
}
use app_sia_x.Txn.Encoding.Stage.{Remains, at_end, at_slice, at_elem}

module _ (sig_index : ℕ) where
  -- What is left, whatever part is next.
  data Left (e : ElemType) (n i : ℕ) (bs cs : Bytes) (ds : List Display) : Type 0 where
    left : (head : ℕ) → Remains sig_index e n i bs cs head ds → Left e n i bs cs ds

  elems-Left :
      {e : ElemType} {n : ℕ} {bs cs : Bytes} {ds : List Display} (xs : List (Elem e)) (i : ℕ)
      → i + length xs ≡ n
      → n < 2 ^ 16
      → All IsElem xs
      → Left e n n bs cs ds
      → Left e n i
          (encode_elems xs ++ bs)
          (covered_elems sig_index i xs ++ cs)
          (displays_of_elems xs ++ ds)
  elems-Left {e} {n} {bs} {cs} {ds} [] i count range h rest =
      subst (λ k. Left e n k bs cs ds) (omega arith) rest
  elems-Left {e} {n} {bs} {cs} {ds} (x ∷ xs) i count range (h, hs) rest =
      let next : u16 (i + 1) ≡ i + 1 = omega arith in
      let part = covered_elem sig_index e i (encode_elem x) in
      elim (elems-Left xs (i + 1) (omega arith) range hs rest) [
        | left head others ↦
            rw
              (
                append_assoc (encode_elem x) (encode_elems xs) bs,
                append_assoc part (covered_elems sig_index (i + 1) xs) cs,
                append_assoc (displays x) (displays_of_elems xs) ds,
              )
              (left (length (encode_elem x))
                (at_elem {head = head} x (omega arith) h (rw next others)))
      ]

  -- The types from one on.
  abbrev Follows : ElemType → List ElemType → Type 0
  Follows e [] = e ≡ txn_sig
  Follows e (e' ∷ es) = (bump e ≡ e') × (is_txn_sig e ≡ false) × Follows e' es

  open_slice :
      {e e' : ElemType} {n head : ℕ} {bs cs : Bytes} {ds : List Display} (len : ℕ)
      → bump e ≡ e'
      → len < 2 ^ 64
      → is_txn_sig e ≡ false
      → (e' ≡ txn_sig → sig_index < len)
      → Remains sig_index e' len 0 bs cs head ds
      → Remains sig_index e n n (u64_bytes len ++ bs) (covered_prefix e' (u64_bytes len) ++ cs) 8 ds
  open_slice {e} {e'} {n} {head} {bs} {cs} {ds} len next range other =
      subst
        (λ k.
          (k ≡ txn_sig → sig_index < len)
          → Remains sig_index k len 0 bs cs head ds
          → Remains sig_index e n n (u64_bytes len ++ bs) (covered_prefix k (u64_bytes len) ++ cs) 8
              ds)
        next (at_slice len range other)

  module _ (tx : Transaction) (h : IsTransaction sig_index tx) where
    slice-Remains :
        (e' : ElemType) (es : List ElemType) (e : ElemType) (n : ℕ)
        → bump e ≡ e'
        → is_txn_sig e ≡ false
        → ((n : ℕ)
            → Left e' n n
                (encode_slices tx es)
                (covered_slices sig_index tx es)
                (displays_of_slices tx es))
        → Remains sig_index e n n
            (encode_slices tx (e' ∷ es))
            (covered_slices sig_index tx (e' ∷ es))
            8
            (displays_of_slices tx (e' ∷ es))
    slice-Remains e' es e n next other rest =
        let xs = slice_of tx e' in
        let (range, all) = h.slices e' in
        let signed : e' ≡ txn_sig → sig_index < length xs =
          λ q. subst (λ k. sig_index < length (slice_of tx k)) (sym q) h.signed in
        elim (elems-Left xs 0 (omega arith) range all (rest (length xs))) [
          | left head others ↦
              rw (append_assoc (u64_bytes (length xs)) (encode_elems xs) (encode_slices tx es))
                (open_slice (length xs) next (omega arith) other signed others)
        ]

    slices-Left :
        (es : List ElemType) (e : ElemType) (n : ℕ)
        → Follows e es
        → Left e n n
            (encode_slices tx es)
            (covered_slices sig_index tx es)
            (displays_of_slices tx es)
    slices-Left [] e n last = subst (λ k. Left k n n [] [] []) (sym last) (left 0 at_end)
    slices-Left (e' ∷ es) e n (next, other, follows) =
        left 8 (slice-Remains e' es e n next other (λ k. slices-Left es e' k follows))

    pub Transaction-Remains :
        Remains sig_index unset 0 0 (encode tx) (covered sig_index tx) 8 (approvals tx)
    unfolding encode covered approvals bump
    Transaction-Remains =
        let follows : Follows sc_input later_types = ground arith in
        slice-Remains sc_input later_types unset 0 refl refl
          (λ k. slices-Left later_types sc_input k follows)
