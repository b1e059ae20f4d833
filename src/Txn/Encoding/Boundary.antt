-- ===== src/Txn/Encoding/Boundary.antt =====
-- The loop over slice boundaries (src/txn.c) on the stream: it takes the length prefixes at its front.
use app_sia_x.Base.{
  ℕ, ◌+◌, ◌^◌, ◌≤◌, ◌<◌, ◌≡◌, if◌then◌else◌, leb, refl, sym, ap, ◌∙◌, arith, inl, inr, false,
  Bool-cases, List, ◌++◌, append_assoc, Bytes, take, ok, throw, continue, raise_if, ◌>>=◌,
}
use native.Mathlib.Decide.{dec_le}
use app_sia_x.Sdk.{Sdk, IsSdk}
use app_sia_x.Codes.{err, partial}
use app_sia_x.Blake2b.{blake2b_init, blake2b_update}
use app_sia_x.Txn.State.{ElemType, txn_sig, bump, is_txn_sig, TxnState}
use app_sia_x.Txn.Read.{read_int}
use app_sia_x.Txn.Decode.{advance, enter_slice, begin_slice, finish_txn, sig_missing, next_slice}
use app_sia_x.Txn.Advance.{IsValid, pending-advance}
use app_sia_x.Txn.ReadInt.{read_int_short}
use app_sia_x.Txn.Slices.{IsValid-enter_slice}
use app_sia_x.Txn.Absorb.{is_txn_sig-eq, absorb_prefix}
use app_sia_x.Txn.Encoding.{u64_bytes, Display, covered_prefix}
use app_sia_x.Txn.Encoding.Parses.{unread, unread_after, seek-Kept}
use app_sia_x.Txn.Encoding.Fields.{buffered, read_int_run}
use app_sia_x.Txn.Encoding.Stage.{Remains, at_slice, Stage, Stands, stands, waits, Outcome}

module _ {C : Type 0} (sdk : Sdk C) (laws : IsSdk sdk) (sig_index : ℕ) (all future : Bytes) where
  rewound :
      {e : ElemType} {n i : ℕ} {bs cs : Bytes} {t : TxnState C}
      → Stage sdk sig_index all future e n i bs cs t
      → Stage sdk sig_index all future e n i bs cs (record t { pos = 0 })
  rewound stage = record {
    same_elem_type = stage.same_elem_type;
    same_slice_len = stage.same_slice_len;
    same_slice_index = stage.same_slice_index;
    same_sig_index = stage.same_sig_index;
    valid = record {
      cap = stage.valid.cap;
      fits = stage.valid.fits;
      seeked = omega arith;
      counted = stage.valid.counted;
    };
    at_front = refl;
    stream = stage.stream;
    hashed = stage.hashed;
    blake = stage.blake;
    covered_all = stage.covered_all;
    hash_size = stage.hash_size;
    sized = stage.sized;
  }

  -- A length prefix.
  module _ {e : ElemType} {n head : ℕ} {bs cs : Bytes} {ds : List Display} (len : ℕ)
      (range : len < 2 ^ 64) (other : is_txn_sig e ≡ false)
      (signed : bump e ≡ txn_sig → sig_index < len)
      (rest : Remains sig_index (bump e) len 0 bs cs head ds) (t : TxnState C)
      (stage : Stage sdk sig_index all future e n n
        (u64_bytes len ++ bs)
        (covered_prefix (bump e) (u64_bytes len) ++ cs)
        t)
      (room : t.buflen < 255 + 8) where
    stream : unread t ++ future ≡ u64_bytes len ++ bs
    stream = rw stage.at_front stage.stream

    abbrev behind : TxnState C
    behind = record t { pos = t.pos + 8 }

    module _ (enough : 8 ≤ t.buflen) where
      inside : t.pos + 8 ≤ t.buflen
      inside = omega (arith, stage.at_front)

      behind-IsValid : IsValid behind
      behind-IsValid = record {
        cap = stage.valid.cap;
        fits = stage.valid.fits;
        seeked = inside;
        counted = stage.valid.counted;
      }

      same_kind : is_txn_sig t.elem_type ≡ false
      same_kind = ap is_txn_sig stage.same_elem_type ∙ other

      prefix : take (t.pos + 8) t.buf ≡ u64_bytes len
      prefix =
          let at_zero : t.pos + 8 ≡ 8 = omega (arith, stage.at_front) in
          ap (λ k. take k t.buf) at_zero
          ∙ (rw stage.at_front at (buffered t future (u64_bytes len) bs stage.valid stream inside))

      entered-Stage :
          Stage sdk sig_index all future (bump e) len 0 bs cs (enter_slice sdk len behind)
      unfolding enter_slice advance
      entered-Stage =
          let entered = record behind {
            slice_len = len;
            slice_index = 0;
            elem_type = bump t.elem_type;
          } in
          let kind : bump t.elem_type ≡ bump e = ap bump stage.same_elem_type in
          let bytes = u64_bytes len in
          record {
            same_elem_type = kind;
            same_slice_len = refl;
            same_slice_index = refl;
            same_sig_index = stage.same_sig_index;
            valid = (IsValid-enter_slice sdk len behind behind-IsValid same_kind).0;
            at_front = refl;
            stream =
                ap (λ b. b ++ future)
                  (pending-advance sdk entered (record { seeked = inside; fits = stage.valid.fits })
                    stage.valid.cap)
                ∙ unread_after t behind bytes bs future stage.valid
                    (seek-Kept t (t.pos + 8) (omega arith) inside).keeps inside refl stream;
            hashed = stage.hashed ++ covered_prefix (bump e) bytes;
            blake =
                absorb_prefix sdk laws entered stage.hashed (omega (arith, stage.at_front))
                  stage.blake
                ∙ ap (λ b. blake2b_update sdk (blake2b_init sdk) (stage.hashed ++ b))
                    (ap (covered_prefix (bump t.elem_type)) prefix
                      ∙ ap (λ k. covered_prefix k bytes) kind);
            covered_all =
                append_assoc stage.hashed (covered_prefix (bump e) bytes) cs ∙ stage.covered_all;
            hash_size = stage.hash_size;
            sized = stage.sized;
          }

      entered-Stands :
          (bound : ℕ)
          → t.buflen ≤ bound
          → Stands sdk sig_index all future ds bound (enter_slice sdk len behind)
      entered-Stands bound le =
          let less = (IsValid-enter_slice sdk len behind behind-IsValid same_kind).1 in
          stands rest entered-Stage (omega (arith, stage.at_front)) (omega arith)

      has_signature : sig_missing sdk (enter_slice sdk len behind) ≡ false
      unfolding sig_missing enter_slice advance
      has_signature = elim (Bool-cases (is_txn_sig (bump t.elem_type))) [
        | inl sig ↦
            let kind : bump e ≡ txn_sig =
              sym (ap bump stage.same_elem_type) ∙ is_txn_sig-eq (bump t.elem_type) sig in
            let enough : leb len t.sig_index ≡ false =
              ground (arith, signed kind, stage.same_sig_index) in
            rw (sig, enough)
        | inr others ↦ rw others
      ]

    pub at_prefix :
        (bound : ℕ)
        → t.buflen ≤ bound
        → Outcome sdk sig_index all future ds bound (next_slice sdk t)
    unfolding next_slice begin_slice
    at_prefix bound le = elim (dec_le 8 t.buflen) [
      | yes enough ↦
          let run : next_slice sdk t ≡ (ok tt, enter_slice sdk len behind) =
            ap (λ b. if b then finish_txn sdk t else (read_int sdk >>= begin_slice sdk) t)
              (same_kind enough)
            ∙ ap (continue (begin_slice sdk))
                (read_int_run sdk laws len t future bs range stage.valid stream (inside enough))
            ∙ ap (λ b. raise_if b err (enter_slice sdk len behind)) (has_signature enough) in
          rw run (entered-Stands enough bound le)
      | no few ↦
          let run : next_slice sdk t ≡ (throw partial, t) =
            ap (λ b. if b then finish_txn sdk t else (read_int sdk >>= begin_slice sdk) t)
              (ap is_txn_sig stage.same_elem_type ∙ other)
            ∙ ap (continue (begin_slice sdk))
                (read_int_short sdk laws t stage.valid (omega (arith, stage.at_front))) in
          rw run (waits (at_slice len range other signed rest) (rewound stage) (omega arith) le)
    ]
