-- ===== src/Txn/Consumes.antt =====
-- What the readers of src/txn.c have taken when they return, whatever the bytes: `seek` so many
-- bytes, `readInt` the eight bytes of the number it returns, and the other readers the encoding of
-- what they are to read.
use app_sia_x.Base.{
  ℕ, ◌+◌, ◌*◌, ◌/◌, ◌%◌, inl, inr, ◌≡◌, refl, sym, ap, ◌∙◌, arith, Bool, true, false, [], ◌∷◌, ◌++◌,
  append_assoc, append-nil, Bytes, length, length-take, length-drop, take, drop, take_add, le_value,
  All, IsByte, Result, ok, throw, stuck, pure, continue, raise_if, ◌>>=◌,
}
use app_sia_x.Codes.{TxnDecoderState, partial}
use app_sia_x.Txn.State.{TxnState, TxnAction}
use app_sia_x.Txn.Read.{need_at_least, seek}
use app_sia_x.Txn.Readers.{Keeps, Keeps-refl, Keeps-trans}
use app_sia_x.Txn.Advance.{IsValid, IsValid-IsSeekable, Keeps-IsValid, pending}
use app_sia_x.Txn.ReadInt.{seek_lem}
use app_sia_x.Txn.Absorb.{part}
use app_sia_x.Txn.Encoding.{le_bytes}

pub le_bytes-le_value : (bs : Bytes) → All IsByte bs → le_bytes (length bs) (le_value bs) ≡ bs
le_bytes-le_value [] h = refl
le_bytes-le_value (b ∷ bs) (h, hs) =
    let low : (b + 256 * le_value bs) % 256 ≡ b = omega arith in
    let high : (b + 256 * le_value bs) / 256 ≡ le_value bs = omega arith in
    rw (low, high) (ap (◌∷◌ b) (le_bytes-le_value bs hs))

module _ {C : Type 0} where
  -- A call that began at `t` has taken bytes that are as `G` says of its result.
  abbrev pub Took :
      {A : Type 0}
      → (A → Bytes → Type 0)
      → TxnState C
      → Result TxnDecoderState A × TxnState C
      → Type 0
  Took G t (ok a, u) = (bs : Bytes) × Keeps t u × G a bs × (part u ≡ part t ++ bs)
  Took G t (throw e, u) = Unit {0}
  Took G t (stuck, u) = Unit {0}

  pub record Consumes {A : Type 0} (G : A → Bytes → Type 0) (m : TxnAction C A) : Type 0 where
    pub takes : (t : TxnState C) → IsValid t → All IsByte (pending t) → Took G t (m t)

module _ {C : Type 0} {A B : Type 0} (G : A → Bytes → Type 0) (H : B → Bytes → Type 0) where
  pub after :
      (t u : TxnState C) (bs : Bytes) (res : Result TxnDecoderState B × TxnState C)
      → Keeps t u
      → part u ≡ part t ++ bs
      → Took (λ b cs. H b (bs ++ cs)) u res
      → Took H t res
  after t u bs (ok b, v) keep e (cs, keep', h, e') =
      (bs ++ cs, Keeps-trans keep keep', h, e' ∙ ap (λ p. p ++ cs) e ∙ append_assoc (part t) bs cs)
  after t u bs (throw x, v) keep e h = tt
  after t u bs (stuck, v) keep e h = tt

  bind-Took :
      (f : A → TxnAction C B) (t : TxnState C) (res : Result TxnDecoderState A × TxnState C)
      → IsValid t
      → All IsByte (pending t)
      → Took G t res
      → ((a : A) (bs : Bytes) → G a bs → Consumes (λ b cs. H b (bs ++ cs)) (f a))
      → Took H t (continue f res)
  bind-Took f t (ok a, u) valid bytes (bs, keep, g, e) rest = after t u bs (f a u) keep e (
      (rest a bs g).takes u (Keeps-IsValid keep valid) (rw (keep.same_buf, keep.same_buflen) bytes))
  bind-Took f t (throw x, u) valid bytes h rest = tt
  bind-Took f t (stuck, u) valid bytes h rest = tt

  pub bind-Consumes :
      (m : TxnAction C A) (f : A → TxnAction C B)
      → Consumes G m
      → ((a : A) (bs : Bytes) → G a bs → Consumes (λ b cs. H b (bs ++ cs)) (f a))
      → Consumes {C = C} H (m >>= f)
  bind-Consumes m f c rest = record {
    takes = λ t valid bytes. bind-Took f t (m t) valid bytes (c.takes t valid bytes) rest;
  }

module _ {C : Type 0} {A : Type 0} where
  pub imply-Took :
      (G H : A → Bytes → Type 0) (t : TxnState C) (res : Result TxnDecoderState A × TxnState C)
      → ((a : A) (bs : Bytes) → G a bs → H a bs)
      → Took G t res
      → Took H t res
  imply-Took G H t (ok a, u) f (bs, keep, g, e) = (bs, keep, f a bs g, e)
  imply-Took G H t (throw x, u) f h = tt
  imply-Took G H t (stuck, u) f h = tt

  pub imply-Consumes :
      (G H : A → Bytes → Type 0) (m : TxnAction C A)
      → ((a : A) (bs : Bytes) → G a bs → H a bs)
      → Consumes G m
      → Consumes H m
  imply-Consumes G H m f c = record {
    takes = λ t valid bytes. imply-Took G H t (m t) f (c.takes t valid bytes);
  }

abbrev pub IsNothing : {A : Type 0} → A → Bytes → Type 0
IsNothing a bs = bs ≡ []

module _ {C : Type 0} where
  still : (t u : TxnState C) → part u ≡ part t → part u ≡ part t ++ []
  still t u e = e ∙ sym (append-nil (part t))

  pub pure-Consumes :
      {A : Type 0} (G : A → Bytes → Type 0) (a : A) → G a [] → Consumes {C = C} G (pure a)
  pure-Consumes G a g = record {
    takes = λ t valid bytes. ([], Keeps-refl t (IsValid-IsSeekable valid), g, still t t refl);
  }

  pub raise_if-Consumes :
      (b : Bool) (e : TxnDecoderState)
      → Consumes {C = C} (λ _ bs. (b ≡ false) × (bs ≡ [])) (raise_if b e)
  raise_if-Consumes true e = record { takes = λ t valid bytes. tt }
  raise_if-Consumes false e = record {
    takes = λ t valid bytes.
        ([], Keeps-refl t (IsValid-IsSeekable valid), (refl, refl), still t t refl);
  }

  pub need_at_least-Consumes : (n : ℕ) → Consumes {C = C} IsNothing (need_at_least n)
  unfolding need_at_least
  need_at_least-Consumes n = record {
    takes = λ t valid bytes.
        imply-Took _ _ t _ (λ _ _ h. h.1) ((raise_if-Consumes _ partial).takes t valid bytes);
  }

  pub seek-Consumes : (n : ℕ) → Consumes {C = C} (λ _ bs. length bs ≡ n) (seek n)
  seek-Consumes n = record {
    takes = λ t valid bytes. elim (seek_lem n t valid) [
      | inl (room, run) ↦ rw run (
        take n (drop t.pos t.buf),
        ground arith,
        omega (
          arith,
          length-take {0} n (drop t.pos t.buf),
          length-drop {0} t.pos t.buf,
          valid.cap,
          valid.fits,
        ),
        take_add t.pos n t.buf,
      )
      | inr (few, run) ↦ rw run tt
    ];
  }
