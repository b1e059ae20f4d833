-- ===== src/Txn/Encoding/Parses.antt =====
-- Readers (src/txn.c) on a stream of bytes, of which the front is buffered: a reader takes the
-- encoding at the front if it is there whole, and otherwise asks for more.
use app_sia_x.Base.{
  ℕ, zero, suc, ◌+◌, ◌≤◌, ◌<◌, ◌≡◌, refl, sym, ap, ◌∙◌, arith, [], ◌∷◌, ◌++◌, append_assoc, Bytes,
  length, length-append, length-take, length-drop, take, drop, drop-drop, drop-append_self, Result,
  ok, throw, continue, pure, ◌>>=◌, ◌>>◌,
}
use native.Mathlib.Decide.{dec_le}
use app_sia_x.Codes.{TxnDecoderState, partial}
use app_sia_x.Txn.State.{TxnState, TxnAction}
use app_sia_x.Txn.Read.{need_at_least, seek}
use app_sia_x.Txn.Readers.{
  Keeps, Keeps-refl, Keeps-trans, need_at_least_enough, need_at_least_short, seek_enough,
  seek_short,
}
use app_sia_x.Txn.Advance.{IsValid, IsValid-IsSeekable, Keeps-IsValid, pending}

-- Prefixes of one list.
pub drop_front : (n : ℕ) (xs ys : Bytes) → n ≤ length xs → drop n (xs ++ ys) ≡ drop n xs ++ ys
drop_front zero xs ys h = refl
drop_front (suc n) [] ys h = absurd (omega arith)
drop_front (suc n) (x ∷ xs) ys h = drop_front n xs ys (omega arith)

pub take_front : (n : ℕ) (xs ys : Bytes) → n ≤ length xs → take n (xs ++ ys) ≡ take n xs
take_front zero xs ys h = refl
take_front (suc n) [] ys h = absurd (omega arith)
take_front (suc n) (x ∷ xs) ys h = ap (◌∷◌ x) (take_front n xs ys (omega arith))

module _ {C : Type 0} where
  -- The valid bytes from `pos` on.
  abbrev pub unread : TxnState C → Bytes
  unread t = drop t.pos (pending t)

  pub length-pending : (t : TxnState C) → IsValid t → length (pending t) ≡ t.buflen
  length-pending t h = omega (arith, length-take {0} t.buflen t.buf, h.cap, h.fits)

  pub length-unread : (t : TxnState C) → IsValid t → length (unread t) + t.pos ≡ t.buflen
  length-unread t h = omega (arith, length-drop {0} t.pos (pending t), length-pending t h, h.seeked)

  -- A reader keeps the sizes of the display strings too.
  pub record Kept (t u : TxnState C) : Type 0 where
    pub keeps : Keeps t u
    pub same_val_size : length u.out_val ≡ length t.out_val
    pub same_addr_size : length u.out_addr ≡ length t.out_addr

  pub Kept-refl : (t : TxnState C) → IsValid t → Kept t t
  Kept-refl t h = record {
    keeps = Keeps-refl t (IsValid-IsSeekable h);
    same_val_size = refl;
    same_addr_size = refl;
  }

  pub Kept-trans : (t u v : TxnState C) → Kept t u → Kept u v → Kept t v
  Kept-trans t u v h k = record {
    keeps = Keeps-trans h.keeps k.keeps;
    same_val_size = k.same_val_size ∙ h.same_val_size;
    same_addr_size = k.same_addr_size ∙ h.same_addr_size;
  }

  pub seek-Kept :
      (t : TxnState C) (pos : ℕ) → t.pos ≤ pos → pos ≤ t.buflen → Kept t (record t { pos = pos })
  seek-Kept t pos le fits = record {
    keeps = ground arith;
    same_val_size = refl;
    same_addr_size = refl;
  }

  -- How a reader that began at `t` ends. `R` relates the states if it returns.
  pub data Parsed {A : Type 0} (n : ℕ) (a : A) (R : TxnState C → TxnState C → Type 0)
      (t : TxnState C) : Result TxnDecoderState A × TxnState C → Type 0 where
    whole :
        (u : TxnState C)
        → t.pos + n ≤ t.buflen
        → Kept t u
        → u.pos ≡ t.pos + n
        → R t u
        → Parsed n a R t (ok a, u)
    short : (u : TxnState C) → t.buflen < t.pos + n → Kept t u → Parsed n a R t (throw partial, u)

  -- `m` reads `bs` and returns `a`.
  pub record Parses {A : Type 0} (m : TxnAction C A) (bs : Bytes) (a : A)
      (R : TxnState C → TxnState C → Type 0) : Type 0 where
    pub run :
        (t : TxnState C) (future rest : Bytes)
        → IsValid t
        → unread t ++ future ≡ bs ++ rest
        → Parsed (length bs) a R t (m t)

  -- What is left of the stream.
  pub unread_after :
      (t u : TxnState C) (xs ys future : Bytes)
      → IsValid t
      → Keeps t u
      → t.pos + length xs ≤ t.buflen
      → u.pos ≡ t.pos + length xs
      → unread t ++ future ≡ xs ++ ys
      → unread u ++ future ≡ ys
  unread_after t u xs ys future h keep fits p e =
      let same : unread u ≡ drop (length xs) (unread t) =
        rw (p, keep.same_buf, keep.same_buflen) (sym (drop-drop (length xs) t.pos (pending t))) in
      ap (λ b. b ++ future) same
      ∙ sym (drop_front (length xs) (unread t) future (omega (arith, length-unread t h)))
      ∙ ap (drop (length xs)) e
      ∙ drop-append_self xs ys

  -- The display strings are left alone.
  pub record Silent (t u : TxnState C) : Type 0 where
    pub same_out_val : u.out_val ≡ t.out_val
    pub same_val_len : u.val_len ≡ t.val_len
    pub same_out_addr : u.out_addr ≡ t.out_addr

  pub Silent-trans : (t u v : TxnState C) → Silent t u → Silent u v → Silent t v
  Silent-trans t u v h k = record {
    same_out_val = k.same_out_val ∙ h.same_out_val;
    same_val_len = k.same_val_len ∙ h.same_val_len;
    same_out_addr = k.same_out_addr ∙ h.same_out_addr;
  }

  pub Silent-refl : (t : TxnState C) → Silent t t
  Silent-refl t = record { same_out_val = refl; same_val_len = refl; same_out_addr = refl }

  pub cast-Parses :
      {A : Type 0} (m : TxnAction C A) (bs cs : Bytes) (a : A)
      {R : TxnState C → TxnState C → Type 0}
      → bs ≡ cs
      → Parses m bs a R
      → Parses m cs a R
  cast-Parses m bs cs a e h = record {
    run = λ t future rest valid s.
        rw (← e) (h.run t future rest valid (s ∙ ap (λ b. b ++ rest) (sym e)));
  }

  pub pure-Parses : {A : Type 0} (a : A) → Parses (pure a) [] a Silent
  pure-Parses a = record {
    run = λ t future rest valid e.
        whole t (omega (arith, valid.seeked)) (Kept-refl t valid) (omega arith) (Silent-refl t);
  }

  pub seek-Parses : (n : ℕ) (bs : Bytes) → length bs ≡ n → Parses (seek n) bs tt Silent
  seek-Parses n bs size = record {
    run = λ t future rest valid e.
        let s = IsValid-IsSeekable valid in
        elim (dec_le (t.pos + n) t.buflen) [
          | yes h ↦ rw (seek_enough n t s h) (
              whole (record t { pos = t.pos + n }) (omega (arith, size))
                (seek-Kept t (t.pos + n) (omega arith) h) (omega (arith, size))
                (record { same_out_val = refl; same_val_len = refl; same_out_addr = refl }))
          | no h ↦
              rw (seek_short n t s (omega arith))
                (short t (omega (arith, size)) (Kept-refl t valid))
        ];
  }

module _ {C : Type 0} {A B : Type 0} (f : A → TxnAction C B) (xs ys : Bytes) (a : A) (b : B)
    {R S T : TxnState C → TxnState C → Type 0}
    (join : (t u v : TxnState C) → R t u → S u v → T t v) where
  behind :
      (t u : TxnState C) (res : Result TxnDecoderState B × TxnState C)
      → Kept t u
      → u.pos ≡ t.pos + length xs
      → R t u
      → Parsed (length ys) b S u res
      → Parsed (length (xs ++ ys)) b T t res
  behind t u _ keep p r (whole v fits keep' q s) =
      whole v (omega (arith, length-append xs ys, keep.keeps.same_buflen))
        (Kept-trans t u v keep keep') (omega (arith, length-append xs ys)) (join t u v r s)
  behind t u _ keep p r (short v few keep') =
      short v (omega (arith, length-append xs ys, keep.keeps.same_buflen))
        (Kept-trans t u v keep keep')

  goes_on :
      (t : TxnState C) (future rest : Bytes)
      → IsValid t
      → unread t ++ future ≡ xs ++ (ys ++ rest)
      → Parses (f a) ys b S
      → (res : Result TxnDecoderState A × TxnState C) → Parsed (length xs) a R t res
      → Parsed (length (xs ++ ys)) b T t (continue f res)
  goes_on t future rest valid e g _ (whole u fits keep p r) = behind t u (f a u) keep p r (
      g.run u future rest (Keeps-IsValid keep.keeps valid)
        (unread_after t u xs (ys ++ rest) future valid keep.keeps fits p e))
  goes_on t future rest valid e g _ (short u few keep) =
      short u (omega (arith, length-append xs ys)) keep

  -- One reader behind another.
  pub then-Parses :
      (m : TxnAction C A)
      → Parses m xs a R
      → Parses (f a) ys b S
      → Parses {C = C} (m >>= f) (xs ++ ys) b T
  then-Parses m h g = record {
    run = λ t future rest valid e.
        let e' = e ∙ append_assoc xs ys rest in
        goes_on t future rest valid e' g (m t) (h.run t future (ys ++ rest) valid e');
  }

-- A test for bytes that are read next.
pub need-Parses :
    {C B : Type 0} (n : ℕ) (m : TxnAction C B) (bs : Bytes) (b : B)
    {R : TxnState C → TxnState C → Type 0}
    → n ≤ length bs
    → Parses m bs b R
    → Parses {C = C} (need_at_least n >> m) bs b R
need-Parses n m bs b enough h = record {
  run = λ t future rest valid e.
      let s = IsValid-IsSeekable valid in
      elim (dec_le (t.pos + n) t.buflen) [
        | yes fits ↦ rw (need_at_least_enough n t s fits) (h.run t future rest valid e)
        | no few ↦
            rw (need_at_least_short n t s (omega arith)) (short t (omega arith) (Kept-refl t valid))
      ];
}

pub then_silently-Parses :
    {C A B : Type 0} (m : TxnAction C A) (f : A → TxnAction C B) (xs ys : Bytes) (a : A) (b : B)
    → Parses m xs a Silent
    → Parses (f a) ys b Silent
    → Parses {C = C} (m >>= f) (xs ++ ys) b Silent
then_silently-Parses m f xs ys a b = then-Parses f xs ys a b Silent-trans m
