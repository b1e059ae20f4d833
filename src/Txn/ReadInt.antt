-- ===== src/Txn/ReadInt.antt =====
-- `readInt` and `seek` (src/txn.c): what they return, and when they ask for more data.
use app_sia_x.Base.{
  ℕ, ◌+◌, ◌-◌, ◌≤◌, ◌<◌, ◌≡◌, ◌⊎◌, inl, inr, refl, arith, ap, ◌∙◌, sym, take, drop, take-take,
  drop-take, ok, throw, All, IsByte, le_value,
}
use native.Mathlib.Decide.{dec_le}
use app_sia_x.Sdk.{Sdk, IsSdk}
use app_sia_x.Codes.{partial, u8_le, u8_le_reads}
use app_sia_x.Txn.State.{TxnState}
use app_sia_x.Txn.Read.{seek, read_int}
use app_sia_x.Txn.Readers.{need_at_least_enough, need_at_least_short, seek_enough, seek_short}
use app_sia_x.Txn.Advance.{IsValid, IsValid-IsSeekable, pending}

-- In a state that meets the invariant, `seek` moves `pos` by `n` if so many valid bytes are left,
-- and otherwise throws TXN_STATE_PARTIAL and changes nothing. This holds for every `n`, however
-- large.
pub seek_lem :
    {C : Type 0} (n : ℕ) (t : TxnState C)
    → IsValid t
    → ((t.pos + n ≤ t.buflen) × (seek n t ≡ (ok tt, record t { pos = t.pos + n })))
      ⊎ ((t.buflen < t.pos + n) × (seek n t ≡ (throw partial, t)))
seek_lem n t h = elim (dec_le (t.pos + n) t.buflen) [
  | yes e ↦ inl (e, seek_enough n t (IsValid-IsSeekable h) e)
  | no e ↦ inr (omega arith, seek_short n t (IsValid-IsSeekable h) (omega arith))
]

module _ {C : Type 0} (sdk : Sdk C) (laws : IsSdk sdk) where
  pub read_int_short :
      (t : TxnState C) → IsValid t → t.buflen < t.pos + 8 → read_int sdk t ≡ (throw partial, t)
  unfolding read_int
  read_int_short t h few = rw (need_at_least_short 8 t (IsValid-IsSeekable h) few) refl

  -- In a state that meets the invariant, with bytes below 256 in the array, `readInt` returns the
  -- next eight valid bytes as a little-endian number and moves `pos` behind them; if fewer are left
  -- it throws TXN_STATE_PARTIAL and changes nothing.
  pub read_int_lem :
      (t : TxnState C)
      → IsValid t
      → All IsByte (take 8 (drop t.pos t.buf))
      → ((t.pos + 8 ≤ t.buflen)
          × (read_int sdk t
              ≡ (ok (le_value (take 8 (drop t.pos (pending t)))), record t { pos = t.pos + 8 })))
        ⊎ ((t.buflen < t.pos + 8) × (read_int sdk t ≡ (throw partial, t)))
  unfolding read_int
  read_int_lem t h bytes = elim (dec_le (t.pos + 8) t.buflen) [
    | yes e ↦
        let cap = h.cap in
        let fits = h.fits in
        let value : u8_le sdk t.buf t.pos ≡ le_value (take 8 (drop t.pos (pending t))) =
          u8_le_reads sdk laws t.buf t.pos (omega arith) bytes
          ∙ ap le_value (
              sym (
                ap (take 8) (drop-take t.pos t.buflen t.buf)
                ∙ take-take 8 (t.buflen - t.pos) (drop t.pos t.buf) (omega arith))) in
        inl (
          e,
          rw
              (
                need_at_least_enough 8 t (IsValid-IsSeekable h) e,
                seek_enough 8 t (IsValid-IsSeekable h) e,
              )
              (ap (λ u. (ok u, record t { pos = t.pos + 8 })) value),
        )
    | no e ↦ inr (omega arith, read_int_short t h (omega arith))
  ]
