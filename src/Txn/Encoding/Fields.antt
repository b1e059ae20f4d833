-- ===== src/Txn/Encoding/Fields.antt =====
-- The readers of src/txn.c take the encoding of the field that they are named for.
use app_sia_x.Base.{
  ℕ, zero, suc, ◌+◌, ◌-◌, ◌^◌, ◌≤◌, ◌<◌, ◌≡◌, inl, inr, refl, sym, ap, ◌∙◌, arith, not, ◌==◌, false,
  List, [], ◌∷◌, ◌++◌, append-nil, Bytes, byte_at, length, take, drop, drop-take, take-take,
  take-append_self, All, IsByte, le_value, ok, throw, raise_if, continue, ◌>>◌,
}
use native.Mathlib.Decide.{dec_le}
use app_sia_x.Sdk.{Sdk, IsSdk}
use app_sia_x.Codes.{err, partial}
use app_sia_x.Txn.State.{TxnState, TxnAction}
use app_sia_x.Txn.Read.{
  seek, read_int, read_currency, read_hash, read_prefixed_bytes, read_keys, read_unlock_conditions,
  read_empty_fields, read_covered_fields,
}
use app_sia_x.Txn.Readers.{need_at_least_enough, need_at_least_short}
use app_sia_x.Txn.Advance.{IsValid, IsValid-IsSeekable}
use app_sia_x.Txn.ReadInt.{read_int_lem, read_int_short}
use app_sia_x.Txn.Encoding.{
  u64_bytes, prefixed, Key, UnlockConditions, encode_keys, encode_conditions, empty_fields, IsKey,
  IsConditions,
}
use app_sia_x.Txn.Encoding.Words.{le_bytes-IsByte, le_value-le_bytes}
use app_sia_x.Txn.Encoding.Parses.{
  take_front, unread, length-unread, Kept-refl, seek-Kept, whole, short, Parses, Silent,
  cast-Parses, pure-Parses, seek-Parses, then_silently-Parses, need-Parses,
}

byte_at-take-drop : (i : ℕ) (bs : Bytes) → byte_at (take 1 (drop i bs)) 0 ≡ byte_at bs i
byte_at-take-drop zero [] = refl
byte_at-take-drop zero (b ∷ bs) = refl
byte_at-take-drop (suc i) [] = refl
byte_at-take-drop (suc i) (b ∷ bs) = byte_at-take-drop i bs

module _ {C : Type 0} where
  -- The front of the stream, where it is buffered.
  pub buffered :
      (t : TxnState C) (future xs rest : Bytes)
      → IsValid t
      → unread t ++ future ≡ xs ++ rest
      → t.pos + length xs ≤ t.buflen
      → take (length xs) (drop t.pos t.buf) ≡ xs
  buffered t future xs rest h e fits =
      sym (
        ap (take (length xs)) (drop-take t.pos t.buflen t.buf)
        ∙ take-take (length xs) (t.buflen - t.pos) (drop t.pos t.buf) (omega arith))
      ∙ sym (take_front (length xs) (unread t) future (omega (arith, length-unread t h)))
      ∙ ap (take (length xs)) e
      ∙ take-append_self xs rest

module _ {C : Type 0} (sdk : Sdk C) (laws : IsSdk sdk) where
  pub read_int_run :
      (n : ℕ) (t : TxnState C) (future rest : Bytes)
      → n < 2 ^ 64
      → IsValid t
      → unread t ++ future ≡ u64_bytes n ++ rest
      → t.pos + 8 ≤ t.buflen
      → read_int sdk t ≡ (ok n, record t { pos = t.pos + 8 })
  read_int_run n t future rest range h e fits =
      let front : take 8 (drop t.pos t.buf) ≡ u64_bytes n =
        buffered t future (u64_bytes n) rest h e fits in
      let again : take 8 (unread t) ≡ take 8 (drop t.pos t.buf) =
        ap (take 8) (drop-take t.pos t.buflen t.buf)
        ∙ take-take 8 (t.buflen - t.pos) (drop t.pos t.buf) (omega arith) in
      let value : le_value (take 8 (unread t)) ≡ n =
        ap le_value (again ∙ front) ∙ le_value-le_bytes 8 n range in
      let bytes : All IsByte (take 8 (drop t.pos t.buf)) = rw front (le_bytes-IsByte 8 n) in
      elim (read_int_lem sdk laws t h bytes) [
        | inl (room, run) ↦ run ∙ ap (λ k. (ok k, record t { pos = t.pos + 8 })) value
        | inr (few, run) ↦ absurd (omega arith)
      ]

  pub read_int-Parses : (n : ℕ) → n < 2 ^ 64 → Parses (read_int sdk) (u64_bytes n) n Silent
  read_int-Parses n range = record {
    run = λ t future rest h e. elim (dec_le (t.pos + 8) t.buflen) [
      | yes fits ↦ rw (read_int_run n t future rest range h e fits) (
          whole (record t { pos = t.pos + 8 }) fits (seek-Kept t (t.pos + 8) (omega arith) fits)
            refl (record { same_out_val = refl; same_val_len = refl; same_out_addr = refl }))
      | no few ↦
          rw (read_int_short sdk laws t h (omega arith)) (short t (omega arith) (Kept-refl t h))
    ];
  }

  pub read_prefixed_bytes-Parses :
      (bs : Bytes) → length bs < 2 ^ 64 → Parses (read_prefixed_bytes sdk) (prefixed bs) tt Silent
  unfolding read_prefixed_bytes
  read_prefixed_bytes-Parses bs range =
      then_silently-Parses _ _ (u64_bytes (length bs)) bs (length bs) tt
        (read_int-Parses (length bs) range) (seek-Parses (length bs) bs refl)

  pub read_hash-Parses : (bs : Bytes) → length bs ≡ 32 → Parses (read_hash sdk false) bs tt Silent
  unfolding read_hash
  read_hash-Parses bs size =
      need-Parses 32 _ bs tt (omega arith) (
        then_silently-Parses _ (λ _. seek 32) [] bs tt tt (pure-Parses tt) (seek-Parses 32 bs size))

  pub read_currency-Parses :
      (bs : Bytes) → length bs < 2 ^ 64 → Parses (read_currency sdk false) (prefixed bs) tt Silent
  unfolding read_currency
  read_currency-Parses bs range =
      then_silently-Parses _ _ (u64_bytes (length bs)) bs (length bs) tt
        (read_int-Parses (length bs) range)
        (need-Parses (length bs) _ bs tt (omega arith) (
          then_silently-Parses _ (λ _. seek (length bs)) [] bs tt tt (pure-Parses tt)
            (seek-Parses (length bs) bs refl)))

  read_keys-Parses :
      (keys : List Key)
      → All IsKey keys
      → Parses (read_keys sdk (length keys)) (encode_keys keys) tt Silent
  unfolding read_keys
  read_keys-Parses [] h = record { run = (pure-Parses tt).run }
  read_keys-Parses (k ∷ keys) (h, hs) =
      let all : Parses (seek 16 >> (read_prefixed_bytes sdk >> read_keys sdk (length keys)))
          (encode_keys (k ∷ keys)) tt Silent =
        then_silently-Parses _ _ k.algorithm (prefixed k.key ++ encode_keys keys) tt tt
          (seek-Parses 16 k.algorithm h.algorithm_size)
          (then_silently-Parses _ _ (prefixed k.key) (encode_keys keys) tt tt
            (read_prefixed_bytes-Parses k.key h.key_size) (read_keys-Parses keys hs)) in
      record { run = all.run }

  pub read_unlock_conditions-Parses :
      (c : UnlockConditions)
      → IsConditions c
      → Parses (read_unlock_conditions sdk) (encode_conditions c) tt Silent
  unfolding read_unlock_conditions
  read_unlock_conditions-Parses c h =
      let required = u64_bytes c.required in
      then_silently-Parses _ _ (u64_bytes c.timelock)
        (u64_bytes (length c.keys) ++ (encode_keys c.keys ++ required)) c.timelock tt
        (read_int-Parses c.timelock h.timelock_range)
        (then_silently-Parses _ _ (u64_bytes (length c.keys)) (encode_keys c.keys ++ required)
          (length c.keys) tt (read_int-Parses (length c.keys) h.keys_range)
          (then_silently-Parses _ _ (encode_keys c.keys) required tt tt
            (read_keys-Parses c.keys h.keys_shape)
            (cast-Parses _ (required ++ []) required tt (append-nil required) (
              then_silently-Parses _ _ required [] c.required tt
                (read_int-Parses c.required h.required_range) (pure-Parses tt)))))

  pub read_empty_fields-Parses :
      (n : ℕ) → Parses (read_empty_fields sdk n) (empty_fields n) tt Silent
  unfolding read_empty_fields
  read_empty_fields-Parses zero = pure-Parses tt
  read_empty_fields-Parses (suc n) =
      then_silently-Parses _ _ (u64_bytes 0) (empty_fields n) 0 tt (read_int-Parses 0 (omega arith))
        (then_silently-Parses _ (λ _. read_empty_fields sdk n) [] (empty_fields n) tt tt
          (pure-Parses tt) (read_empty_fields-Parses n))

  abbrev marked_fields : ℕ → TxnAction C (Unit {0})
  marked_fields flag = raise_if (not (flag == 1)) err >> (seek 1 >> read_empty_fields sdk 10)

  pub read_covered_fields-Parses : Parses (read_covered_fields sdk) (1 ∷ empty_fields 10) tt Silent
  unfolding read_covered_fields
  read_covered_fields-Parses = record {
    run = λ t future rest h e.
        let s = IsValid-IsSeekable h in
        let fields =
          then_silently-Parses (seek 1) (λ _. read_empty_fields sdk 10) (1 ∷ []) (empty_fields 10)
            tt tt (seek-Parses 1 (1 ∷ []) refl) (read_empty_fields-Parses 10) in
        elim (dec_le (t.pos + 1) t.buflen) [
          | yes fits ↦
              let front = buffered t future (1 ∷ []) (empty_fields 10 ++ rest) h e fits in
              let flag : byte_at t.buf t.pos ≡ 1 =
                sym (byte_at-take-drop t.pos t.buf) ∙ ap (λ b. byte_at b 0) front in
              let run : read_covered_fields sdk t ≡ (seek 1 >> read_empty_fields sdk 10) t =
                ap (continue _) (need_at_least_enough 1 t s fits)
                ∙ ap (λ b. marked_fields b t) flag in
              rw run (fields.run t future rest h e)
          | no few ↦
              let run : read_covered_fields sdk t ≡ (throw partial, t) =
                ap (continue _) (need_at_least_short 1 t s (omega arith)) in
              rw run (short t (omega arith) (Kept-refl t h))
        ];
  }
