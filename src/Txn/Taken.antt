-- ===== src/Txn/Taken.antt =====
-- What the readers of the fields of src/txn.c have taken when they return, whatever the bytes: the
-- encoding of a number, of a string behind its length, of unlock conditions and of the covered
-- fields.
use app_sia_x.Base.{
  ℕ, zero, suc, ◌+◌, ◌-◌, ◌^◌, ◌≤◌, ◌<◌, ◌≡◌, refl, sym, ap, ◌∙◌, arith, not, ◌==◌, List, [], ◌∷◌,
  ◌++◌, append-nil, Bytes, byte_at, length, length-take, length-drop, take, drop, take_add,
  take-take, drop-take, le_value, All, All-split, IsByte, take-append-drop, raise_if, ◌>>◌, inl,
  inr, Bool-cases,
}
use native.Mathlib.Decide.{dec_le}
use native.Mathlib.Nat.{pow-suc}
use app_sia_x.Sdk.{Sdk, IsSdk}
use app_sia_x.Codes.{err}
use app_sia_x.Txn.State.{TxnState}
use app_sia_x.Txn.Read.{
  seek, read_int, read_prefixed_bytes, read_keys, read_unlock_conditions, read_empty_fields,
  read_covered_fields,
}
use app_sia_x.Txn.Advance.{IsValid, IsValid-IsSeekable, Keeps-IsValid, pending}
use app_sia_x.Txn.Readers.{Keeps, need_at_least_enough, need_at_least_short, seek_enough}
use app_sia_x.Txn.ReadInt.{read_int_lem, read_int_short}
use app_sia_x.Txn.Absorb.{part}
use app_sia_x.Txn.Consumes.{
  le_bytes-le_value, Consumes, IsNothing, after, imply-Took, bind-Consumes, imply-Consumes,
  pure-Consumes, raise_if-Consumes, seek-Consumes,
}
use app_sia_x.Txn.Encoding.{
  u64_bytes, prefixed, Key, UnlockConditions, encode_keys, encode_conditions, empty_fields, IsKey,
  IsConditions,
}

le_value-lt : (bs : Bytes) → All IsByte bs → le_value bs < 256 ^ length bs
le_value-lt [] h = omega arith
le_value-lt (b ∷ bs) (h, hs) = omega (arith, pow-suc 256 (length bs), le_value-lt bs hs)

pub All-take : (n : ℕ) (bs : Bytes) → All IsByte bs → All IsByte (take n bs)
All-take n bs h = (All-split IsByte (take n bs) (drop n bs) (rw (take-append-drop n bs) h)).0

All-drop : (n : ℕ) (bs : Bytes) → All IsByte bs → All IsByte (drop n bs)
All-drop n bs h = (All-split IsByte (take n bs) (drop n bs) (rw (take-append-drop n bs) h)).1

take-one : (n : ℕ) (bs : Bytes) → n < length bs → take 1 (drop n bs) ≡ byte_at bs n ∷ []
take-one n [] h = absurd (omega arith)
take-one zero (b ∷ bs) h = refl
take-one (suc n) (b ∷ bs) h = take-one n bs (omega arith)

-- Eight bytes are those of their value.
eight : (bs : Bytes) → length bs ≡ 8 → All IsByte bs → bs ≡ u64_bytes (le_value bs)
eight bs size h = rw size at (sym (le_bytes-le_value bs h))

-- The bytes of a number that is returned.
abbrev pub IsInt : ℕ → Bytes → Type 0
IsInt v bs = (v < 2 ^ 64) × (bs ≡ u64_bytes v)

pub eight-IsInt : (bs : Bytes) → length bs ≡ 8 → All IsByte bs → IsInt (le_value bs) bs
eight-IsInt bs size h = (omega (arith, rw size at (le_value-lt bs h)), eight bs size h)

-- The bytes of a string behind its length.
abbrev pub IsPrefixed : {A : Type 0} → A → Bytes → Type 0
IsPrefixed a bs = (v : Bytes) × (length v < 2 ^ 64) × (bs ≡ prefixed v)

abbrev pub IsKeys : ℕ → {A : Type 0} → A → Bytes → Type 0
IsKeys n a bs = (ks : List Key) × (length ks ≡ n) × All IsKey ks × (bs ≡ encode_keys ks)

abbrev pub AreConditions : {A : Type 0} → A → Bytes → Type 0
AreConditions a bs = (c : UnlockConditions) × IsConditions c × (bs ≡ encode_conditions c)

module _ {C : Type 0} (sdk : Sdk C) (laws : IsSdk sdk) where
  pub read_int-Consumes : Consumes IsInt (read_int sdk)
  read_int-Consumes = record {
    takes = λ t valid bytes. elim (dec_le (t.pos + 8) t.buflen) [
      | yes e ↦
          let cap = valid.cap in
          let fits = valid.fits in
          let seen = take 8 (drop t.pos (pending t)) in
          let same : seen ≡ take 8 (drop t.pos t.buf) =
            ap (take 8) (drop-take t.pos t.buflen t.buf)
            ∙ take-take 8 (t.buflen - t.pos) (drop t.pos t.buf) (omega arith) in
          let good : All IsByte seen = All-take 8 _ (All-drop t.pos (pending t) bytes) in
          let size : length seen ≡ 8 = omega (
            arith,
            length-take {0} 8 (drop t.pos (pending t)),
            length-drop {0} t.pos (pending t),
            length-take {0} t.buflen t.buf,
          ) in
          elim (read_int_lem sdk laws t valid (rw same at good)) [
            | inl (_, run) ↦ rw run (
              seen,
              ground arith,
              eight-IsInt seen size good,
              take_add t.pos 8 t.buf ∙ ap (◌++◌ (part t)) (sym same),
            )
            | inr (few, run) ↦ rw run tt
          ]
      | no e ↦ rw (read_int_short sdk laws t valid (omega arith)) tt
    ];
  }

  pub read_prefixed_bytes-Consumes : Consumes IsPrefixed (read_prefixed_bytes sdk)
  unfolding read_prefixed_bytes
  read_prefixed_bytes-Consumes =
      bind-Consumes IsInt IsPrefixed (read_int sdk) _ read_int-Consumes λ len bs (less, e).
        imply-Consumes _ _ (seek len)
          (λ _ v size. (v, omega arith, ap (λ b. b ++ v) (e ∙ ap u64_bytes (sym size))))
          (seek-Consumes len)

  read_keys-Consumes : (n : ℕ) → Consumes (IsKeys n) (read_keys sdk n)
  unfolding read_keys
  read_keys-Consumes zero = record {
    takes = (pure-Consumes (IsKeys zero) tt ([], refl, tt, refl)).takes;
  }
  read_keys-Consumes (suc n) =
      let whole : Consumes (IsKeys (suc n))
          (seek 16 >> (read_prefixed_bytes sdk >> read_keys sdk n)) =
        bind-Consumes _ (IsKeys (suc n)) (seek 16) _ (seek-Consumes 16) λ _ alg size.
          bind-Consumes IsPrefixed _ (read_prefixed_bytes sdk) _ read_prefixed_bytes-Consumes
            λ _ bs (key, less, e).
              imply-Consumes (IsKeys n) _ (read_keys sdk n)
                (λ _ cs (ks, count, keys, e'). (
                  record { algorithm = alg; key = key } ∷ ks,
                  ap suc count,
                  (record { algorithm_size = size; key_size = less }, keys),
                  rw (e, e') refl,
                ))
                (read_keys-Consumes n) in
      record { takes = whole.takes }

  pub read_unlock_conditions-Consumes : Consumes AreConditions (read_unlock_conditions sdk)
  unfolding read_unlock_conditions
  read_unlock_conditions-Consumes =
      bind-Consumes IsInt AreConditions (read_int sdk) _ read_int-Consumes λ timelock xs (less, e).
        bind-Consumes IsInt _ (read_int sdk) _ read_int-Consumes λ num bs (less', e').
          bind-Consumes (IsKeys num) _ (read_keys sdk num) _ (read_keys-Consumes num)
            λ _ cs (ks, count, keys, e'').
              bind-Consumes IsInt _ (read_int sdk) _ read_int-Consumes
                λ required ds (less''', e'''). pure-Consumes _ tt (
                  record { timelock = timelock; keys = ks; required = required },
                  record {
                    timelock_range = less;
                    required_range = less''';
                    keys_range = omega arith;
                    keys_shape = keys;
                  },
                  rw (e, e', e'', e''', count, append-nil (u64_bytes required)) refl,
                )

  pub read_empty_fields-Consumes :
      (n : ℕ) → Consumes (λ _ bs. bs ≡ empty_fields n) (read_empty_fields sdk n)
  unfolding read_empty_fields
  read_empty_fields-Consumes zero = pure-Consumes _ tt refl
  read_empty_fields-Consumes (suc n) =
      bind-Consumes IsInt _ (read_int sdk) _ read_int-Consumes λ len bs (_, e).
        bind-Consumes _ _ (raise_if (not (len == 0)) err) _ (raise_if-Consumes _ err)
          λ _ cs (none, e').
            imply-Consumes _ _ (read_empty_fields sdk n)
              (λ _ ds e''. let nought : len ≡ 0 = ground arith in rw (e, e', e'', nought) refl)
              (read_empty_fields-Consumes n)

  front_byte :
      (t : TxnState C)
      → IsValid t
      → t.pos + 1 ≤ t.buflen
      → take 1 (drop t.pos t.buf) ≡ byte_at t.buf t.pos ∷ []
  front_byte t valid h = take-one t.pos t.buf (omega (arith, valid.cap, valid.fits))

  pub read_covered_fields-Consumes :
      Consumes (λ _ bs. bs ≡ 1 ∷ empty_fields 10) (read_covered_fields sdk)
  unfolding read_covered_fields
  read_covered_fields-Consumes = record {
    takes = λ t valid bytes. elim (dec_le (t.pos + 1) t.buflen) [
      | yes room ↦
          let seekable = IsValid-IsSeekable valid in
          let u = record t { pos = t.pos + 1 } in
          let keep : Keeps t u = ground arith in
          rw (need_at_least_enough 1 t seekable room)
            (elim (Bool-cases (byte_at t.buf t.pos == 1)) [
              | inl one ↦
                  let is_one : byte_at t.buf t.pos ≡ 1 = ground arith in
                  let front : part u ≡ part t ++ 1 ∷ [] =
                    take_add t.pos 1 t.buf
                    ∙ ap (◌++◌ (part t)) (front_byte t valid room ∙ ap (λ b. b ∷ []) is_one) in
                  rw (one, seek_enough 1 t seekable room)
                    (after {A = Unit {0}} IsNothing (λ _ bs. bs ≡ 1 ∷ empty_fields 10) t u (1 ∷ [])
                      (read_empty_fields sdk 10 u) keep front
                      (imply-Took _ _ u (read_empty_fields sdk 10 u) (λ _ _ e. ap (◌∷◌ 1) e)
                        ((read_empty_fields-Consumes 10).takes u (Keeps-IsValid keep valid) bytes)))
              | inr other ↦ rw other tt
            ])
      | no few ↦ rw (need_at_least_short 1 t (IsValid-IsSeekable valid) (omega arith)) tt
    ];
  }
