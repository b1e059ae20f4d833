-- ===== src/Txn/Readers.antt =====
-- What every reader of the decoder keeps: it moves `pos` forward inside the valid bytes, and changes
-- nothing else but the strings for display.
use app_sia_x.Base.{
  ℕ, zero, suc, ◌+◌, ◌-◌, ◌^◌, ◌≤◌, ◌<◌, ◌≡◌, arith, ◌∙◌, byte_at, Bool, true, false, not, le→ltb,
  lt→ltb, u8, u16, u64, Bytes, ◌==◌, Result, ok, throw, stuck, pure, continue, ap, raise_if, gets,
  modify, ◌>>=◌, ◌>>◌, drop,
}
use app_sia_x.Sdk.{Sdk}
use native.Mathlib.Decide.{dec_le}
use app_sia_x.Codes.{TxnDecoderState, IsFailure, err, partial, u8_le}
use app_sia_x.Currency.Cur2Dec.{cur2dec}
use app_sia_x.Currency.Cur2Dec.Returns.{Returns, cur2dec-Returns}
use app_sia_x.Txn.State.{TxnState, TxnAction, buf_size}
use app_sia_x.Txn.Read.{
  need_at_least, seek, read_int, show_value, read_currency, show_address, read_hash,
  read_prefixed_bytes, read_keys, read_unlock_conditions, read_empty_fields, read_covered_fields,
}

module _ {C : Type 0} where
  pub record IsSeekable (t : TxnState C) : Type 0 where
    pub seeked : t.pos ≤ t.buflen
    pub fits : t.buflen ≤ buf_size

  pub record Keeps (t t' : TxnState C) : Type 0 where
    pub forward : t.pos ≤ t'.pos
    pub inside : t'.pos ≤ t'.buflen
    pub same_buf : t'.buf ≡ t.buf
    pub same_buflen : t'.buflen ≡ t.buflen
    pub same_elem_type : t'.elem_type ≡ t.elem_type
    pub same_slice_len : t'.slice_len ≡ t.slice_len
    pub same_slice_index : t'.slice_index ≡ t.slice_index
    pub same_sig_index : t'.sig_index ≡ t.sig_index
    pub same_blake : t'.blake ≡ t.blake
    pub same_sig_hash : t'.sig_hash ≡ t.sig_hash

  -- A call that began at `t` has read so many bytes at least, or has thrown.
  abbrev pub Ends : {A : Type 0} → ℕ → TxnState C → Result TxnDecoderState A × TxnState C → Type 0
  Ends k t (ok a, t') = Keeps t t' × (t.pos + k ≤ t'.pos)
  Ends k t (throw e, t') = Keeps t t' × IsFailure e
  Ends k t (stuck, t') = ⊥

  pub record Reads {A : Type 0} (k : ℕ) (m : TxnAction C A) : Type 0 where
    pub ends : (t : TxnState C) → IsSeekable t → Ends k t (m t)

  pub Keeps-refl : (t : TxnState C) → IsSeekable t → Keeps t t
  Keeps-refl t h = ground arith

  pub Keeps-IsSeekable : {t t' : TxnState C} → Keeps t t' → IsSeekable t → IsSeekable t'
  Keeps-IsSeekable k h = ground arith

  pub Keeps-trans : {t u v : TxnState C} → Keeps t u → Keeps u v → Keeps t v
  Keeps-trans h k = ground arith

  Ends-trans :
      {A : Type 0} (j k i : ℕ) (t u : TxnState C) (res : Result TxnDecoderState A × TxnState C)
      → i ≤ j + k
      → Keeps t u
      → (t.pos + j ≤ u.pos)
      → Ends k u res
      → Ends i t res
  Ends-trans j k i t u (ok a, v) le h p (h', q) = (Keeps-trans h h', omega arith)
  Ends-trans j k i t u (throw e, v) le h p (h', f) = (Keeps-trans h h', f)
  Ends-trans j k i t u (stuck, v) le h p h' = h'

module _ {C : Type 0} {A B : Type 0} (j k i : ℕ) (f : A → TxnAction C B) where
  bind-Ends :
      (t : TxnState C) (res : Result TxnDecoderState A × TxnState C)
      → IsSeekable t
      → i ≤ j + k
      → Ends j t res
      → ((a : A) → Reads k (f a))
      → Ends i t (continue f res)
  bind-Ends t (ok a, t') s le (h, p) g =
      Ends-trans j k i t t' (f a t') le h p ((g a).ends t' (Keeps-IsSeekable h s))
  bind-Ends t (throw e, t') s le h g = h
  bind-Ends t (stuck, t') s le h g = h

  pub bind-Reads :
      (m : TxnAction C A)
      → i ≤ j + k
      → Reads j m
      → ((a : A) → Reads k (f a))
      → Reads {C = C} i (m >>= f)
  bind-Reads m le h g = record { ends = λ t s. bind-Ends t (m t) s le (h.ends t s) g }

module _ {C : Type 0} where
  weaken-Ends :
      {A : Type 0} (k : ℕ) (t : TxnState C) (res : Result TxnDecoderState A × TxnState C)
      → Ends k t res
      → Ends 0 t res
  weaken-Ends k t (ok a, t') (h, p) = (h, omega arith)
  weaken-Ends k t (throw e, t') h = h
  weaken-Ends k t (stuck, t') h = h

  pub weaken-Reads : {A : Type 0} (m : TxnAction C A) {k : ℕ} → Reads k m → Reads 0 m
  weaken-Reads m {k} h = record { ends = λ t s. weaken-Ends k t (m t) (h.ends t s) }

  pub pure-Reads : {A : Type 0} (a : A) → Reads {C = C} 0 (pure a)
  pure-Reads a = record { ends = λ t s. (Keeps-refl t s, omega arith) }

  pub gets-Reads : {A : Type 0} (f : TxnState C → A) → Reads 0 (gets f)
  gets-Reads f = record { ends = λ t s. (Keeps-refl t s, omega arith) }

  pub raise_if-Reads :
      (b : Bool) (e : TxnDecoderState) → IsFailure e → Reads {C = C} 0 (raise_if b e)
  raise_if-Reads true e f = record { ends = λ t s. (Keeps-refl t s, f) }
  raise_if-Reads false e f = record { ends = λ t s. (Keeps-refl t s, omega arith) }

  pub need_at_least-Reads : (n : ℕ) → Reads {C = C} 0 (need_at_least n)
  unfolding need_at_least
  need_at_least-Reads n = record { ends = λ t s. (raise_if-Reads _ partial tt).ends t s }

  room : (t : TxnState C) → IsSeekable t → u64 (t.buflen + 2 ^ 64 - t.pos) ≡ t.buflen - t.pos
  room t s = omega arith

  pub need_at_least_enough :
      (n : ℕ) (t : TxnState C)
      → IsSeekable t
      → t.pos + n ≤ t.buflen
      → need_at_least n t ≡ (ok tt, t)
  unfolding need_at_least
  need_at_least_enough n t s h = rw (room t s, le→ltb (t.buflen - t.pos) n (omega arith))

  pub need_at_least_short :
      (n : ℕ) (t : TxnState C)
      → IsSeekable t
      → t.buflen < t.pos + n
      → need_at_least n t ≡ (throw partial, t)
  unfolding need_at_least
  need_at_least_short n t s h = rw (room t s, lt→ltb (t.buflen - t.pos) n (omega arith))

  pub seek_enough :
      (n : ℕ) (t : TxnState C)
      → IsSeekable t
      → t.pos + n ≤ t.buflen
      → seek n t ≡ (ok tt, record t { pos = t.pos + n })
  unfolding seek
  seek_enough n t s h =
      let e : u16 (t.pos + n) ≡ t.pos + n = omega arith in
      ap (continue _) (need_at_least_enough n t s h) ∙ rw e

  pub seek_short :
      (n : ℕ) (t : TxnState C) → IsSeekable t → t.buflen < t.pos + n → seek n t ≡ (throw partial, t)
  unfolding seek
  seek_short n t s h = ap (continue _) (need_at_least_short n t s h)

  pub seek-Reads : (n : ℕ) → Reads {C = C} n (seek n)
  seek-Reads n = record {
    ends = λ t s. elim (dec_le (t.pos + n) t.buflen) [
      | yes h ↦ rw (seek_enough n t s h) (ground arith, omega arith)
      | no h ↦ rw (seek_short n t s (omega arith)) (Keeps-refl t s, tt)
    ];
  }

module _ {C : Type 0} (sdk : Sdk C) where
  abbrev int_at : TxnState C → ℕ
  int_at txn = u8_le sdk txn.buf txn.pos

  pub read_int-Reads : Reads 8 (read_int sdk)
  unfolding read_int
  read_int-Reads = bind-Reads 0 8 8 _ (need_at_least 8) (omega arith) (need_at_least-Reads 8) λ _.
      bind-Reads 0 8 8 _ (gets (int_at)) (omega arith) (gets-Reads (int_at))
        λ u. bind-Reads 8 0 8 _ (seek 8) (omega arith) (seek-Reads 8) λ _. pure-Reads u

  show_value-Reads : Reads 0 (show_value sdk)
  unfolding show_value
  show_value-Reads = record {
    ends = λ t s.
        by_result t s (cur2dec sdk t.out_val (drop (t.pos - 8) t.buf)) (cur2dec-Returns sdk _ _);
  }
    where
      by_result :
          (t : TxnState C)
          → IsSeekable t
          → (r : Result TxnDecoderState (Bytes × ℕ)) → Returns r
          → Ends {A = Unit {0}} 0 t (elim r [
            | ok (out_val, len) ↦ (ok tt, record t { out_val = out_val; val_len = u8 len })
            | throw e ↦ (throw e, t)
            | stuck ↦ (stuck, t)
          ])
      by_result t s (ok (out_val, len)) h = (ground arith, omega arith)
      by_result t s (throw e) h = (Keeps-refl t s, h)
      by_result t s stuck h = absurd h

  show_address-Reads : Reads 0 (modify (show_address sdk))
  unfolding show_address
  show_address-Reads = record { ends = λ t s. (ground arith, omega arith) }

  when_shown :
      (shown : Bool) (m : TxnAction C (Unit {0}))
      → Reads 0 m
      → Reads {C = C} 0 (elim shown [ true ↦ m | false ↦ pure tt ])
  when_shown true m h = h
  when_shown false m h = pure-Reads tt

  pub read_currency-Reads : (shown : Bool) → Reads 8 (read_currency sdk shown)
  unfolding read_currency
  read_currency-Reads shown = bind-Reads 8 0 8 _ (read_int sdk) (omega arith) read_int-Reads λ len.
      bind-Reads 0 0 0 _ (need_at_least len) (omega arith) (need_at_least-Reads len) λ _.
        bind-Reads 0 0 0 _ _ (omega arith) (when_shown shown (show_value sdk) show_value-Reads)
          λ _. weaken-Reads _ (seek-Reads len)

  pub read_hash-Reads : (shown : Bool) → Reads 32 (read_hash sdk shown)
  unfolding read_hash
  read_hash-Reads shown =
      bind-Reads 0 32 32 _ (need_at_least 32) (omega arith) (need_at_least-Reads 32) λ _.
        bind-Reads 0 32 32 _ _ (omega arith)
          (when_shown shown (modify (show_address sdk)) show_address-Reads) λ _. seek-Reads 32

  pub read_prefixed_bytes-Reads : Reads 8 (read_prefixed_bytes sdk)
  unfolding read_prefixed_bytes
  read_prefixed_bytes-Reads =
      bind-Reads 8 0 8 _ (read_int sdk) (omega arith) read_int-Reads
        λ len. weaken-Reads _ (seek-Reads len)

  read_keys-Reads : (n : ℕ) → Reads 0 (read_keys sdk n)
  unfolding read_keys
  read_keys-Reads zero = record { ends = λ t s. (Keeps-refl t s, omega arith) }
  read_keys-Reads (suc n) =
      let whole : Reads 0 (seek 16 >> (read_prefixed_bytes sdk >> read_keys sdk n)) =
        bind-Reads 16 0 0 _ (seek 16) (omega arith) (seek-Reads 16) λ _.
          bind-Reads 8 0 0 _ (read_prefixed_bytes sdk) (omega arith) read_prefixed_bytes-Reads
            λ _. read_keys-Reads n in
      record { ends = whole.ends }

  pub read_unlock_conditions-Reads : Reads 8 (read_unlock_conditions sdk)
  unfolding read_unlock_conditions
  read_unlock_conditions-Reads = bind-Reads 8 0 8 _ (read_int sdk) (omega arith) read_int-Reads λ _.
      bind-Reads 8 0 0 _ (read_int sdk) (omega arith) read_int-Reads λ num_keys.
        bind-Reads 0 0 0 _ (read_keys sdk num_keys) (omega arith) (read_keys-Reads num_keys)
          λ _. bind-Reads 8 0 0 _ (read_int sdk) (omega arith) read_int-Reads λ _. pure-Reads tt

  read_empty_fields-Reads : (n : ℕ) → Reads 0 (read_empty_fields sdk n)
  unfolding read_empty_fields
  read_empty_fields-Reads zero = pure-Reads tt
  read_empty_fields-Reads (suc n) =
      bind-Reads 8 0 0 _ (read_int sdk) (omega arith) read_int-Reads λ len.
        bind-Reads 0 0 0 _ _ (omega arith) (raise_if-Reads (not (len == 0)) err tt)
          λ _. read_empty_fields-Reads n

  abbrev flag_at : TxnState C → ℕ
  flag_at txn = byte_at txn.buf txn.pos

  pub read_covered_fields-Reads : Reads 0 (read_covered_fields sdk)
  unfolding read_covered_fields
  read_covered_fields-Reads =
      bind-Reads 0 0 0 _ (need_at_least 1) (omega arith) (need_at_least-Reads 1) λ _.
        bind-Reads 0 0 0 _ (gets flag_at) (omega arith) (gets-Reads flag_at) λ whole.
          bind-Reads 0 0 0 _ _ (omega arith) (raise_if-Reads (not (whole == 1)) err tt) λ _.
            bind-Reads 1 0 0 _ (seek 1) (omega arith) (seek-Reads 1) λ _. read_empty_fields-Reads 10
