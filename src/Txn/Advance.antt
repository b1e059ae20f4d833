-- ===== src/Txn/Advance.antt =====
-- The valid bytes of the buffer (`buf[0 .. buflen)`) under `txn_update` and `advance`, and the
-- invariant of the decoder.
use app_sia_x.Base.{
  ℕ, ◌+◌, ◌-◌, ◌^◌, ◌≤◌, ◌<◌, ◌≡◌, ◌⊎◌, inl, inr, refl, arith, ◌∙◌, ap, sym, ◌++◌, Bytes, length,
  length-take, length-drop, length-write, length-replicate, take, drop, drop-take, take-write_start,
  take-write_end, write, u16, lt→ltb, le→ltb, ok, throw,
}
use native.Mathlib.Decide.{dec_le}
use app_sia_x.Sdk.{Sdk}
use app_sia_x.Codes.{sw_developer_err}
use app_sia_x.Txn.State.{ElemType, unset, beyond, TxnState, buf_size}
use app_sia_x.Txn.Decode.{advance, txn_init, txn_update}
use app_sia_x.Txn.Readers.{IsSeekable, Keeps}

-- Where the decoder stands between elements: before the first slice nothing is counted, and an
-- element is counted only in a slice that is not empty.
abbrev pub Counted : ElemType → ℕ → ℕ → Type 0
Counted unset i n = (i ≡ 0) × (n ≡ 0)
Counted beyond i n = ⊥
Counted _ i n = (i ≡ 0) ⊎ (0 < n)

module _ {C : Type 0} where
  abbrev pub pending : TxnState C → Bytes
  pending t = take t.buflen t.buf

  pub record IsValid (t : TxnState C) : Type 0 where
    pub cap : length t.buf ≡ buf_size
    pub fits : t.buflen ≤ buf_size
    pub seeked : t.pos ≤ t.buflen
    pub counted : Counted t.elem_type t.slice_index t.slice_len

  pub IsValid-IsSeekable : {t : TxnState C} → IsValid t → IsSeekable t
  IsValid-IsSeekable h = record { seeked = h.seeked; fits = h.fits }

  pub Keeps-IsValid : {t t' : TxnState C} → Keeps t t' → IsValid t → IsValid t'
  Keeps-IsValid k h = record {
    cap = rw k.same_buf h.cap;
    fits = rw k.same_buflen h.fits;
    seeked = k.inside;
    counted = rw (k.same_elem_type, k.same_slice_index, k.same_slice_len) h.counted;
  }

  -- From a state that meets the invariant, `txn_update` appends the packet to the valid bytes,
  -- rewinds `pos` and keeps the invariant, or throws SW_DEVELOPER_ERR for a packet that does not fit
  -- and changes nothing.
  pub txn_update_lem :
      (bin : Bytes) (t : TxnState C)
      → IsValid t
      → let (r, t') = txn_update bin t in
        ((t.buflen + length bin ≤ buf_size)
          × (r ≡ ok tt)
          × (pending t' ≡ pending t ++ bin)
          × (t'.pos ≡ 0)
          × IsValid t')
        ⊎ ((buf_size < t.buflen + length bin) × (r ≡ throw sw_developer_err) × (t' ≡ t))
  unfolding txn_update
  txn_update_lem bin t h = elim (dec_le (t.buflen + length bin) buf_size) [
    | yes room ↦ rw (le→ltb buf_size (t.buflen + length bin) room) (
        inl (
          room,
          refl,
          ap (λ n. take n (write t.buf t.buflen bin)) (wide room)
              ∙ take-write_end t.buf t.buflen bin (omega (arith, h.cap)),
          refl,
          record {
            cap = length-write t.buf t.buflen bin ∙ h.cap;
            fits = omega (arith, wide room);
            seeked = omega arith;
            counted = h.counted;
          },
        ))
    | no full ↦
        rw (lt→ltb buf_size (t.buflen + length bin) (omega arith)) (inr (omega arith, refl, refl))
  ]
    where
      wide : t.buflen + length bin ≤ buf_size → u16 (t.buflen + length bin) ≡ t.buflen + length bin
      wide room = omega arith

module _ {C : Type 0} (sdk : Sdk C) where
  module _ (t : TxnState C) (s : IsSeekable t) (cap : length t.buf ≡ buf_size) where
    left : u16 (t.buflen + 2 ^ 16 - t.pos) ≡ t.buflen - t.pos
    left = omega arith

    pub buflen-advance : (advance sdk t).buflen ≡ t.buflen - t.pos
    unfolding advance
    buflen-advance = left

    -- Of the valid bytes in the array, `advance` drops those in front of `pos`, and keeps the others
    -- in order.
    pub pending-advance : pending (advance sdk t) ≡ drop t.pos (pending t)
    unfolding advance
    pending-advance =
        let kept = take (t.buflen - t.pos) (drop t.pos t.buf) in
        let size : length kept ≡ t.buflen - t.pos = omega (
          arith,
          length-take {0} (t.buflen - t.pos) (drop t.pos t.buf),
          length-drop {0} t.pos t.buf,
        ) in
        rw left (
          ap (λ n. take n (write t.buf 0 kept)) (sym size)
          ∙ take-write_start t.buf kept (omega arith)
          ∙ sym (drop-take t.pos t.buflen t.buf))

    pub length-advance : length (advance sdk t).buf ≡ buf_size
    unfolding advance
    length-advance =
        length-write t.buf 0 (take (u16 (t.buflen + 2 ^ 16 - t.pos)) (drop t.pos t.buf)) ∙ cap

  -- `txn_init` starts with no valid byte.
  pub txn_init-IsValid : (sig_index : ℕ) → IsValid (txn_init sdk sig_index)
  unfolding txn_init
  txn_init-IsValid sig_index = record {
    cap = length-replicate {A = ℕ} buf_size 0;
    fits = omega arith;
    seeked = omega arith;
    counted = (refl, refl);
  }
