-- ===== src/Base/Values.antt =====
-- The number that a sequence of bytes stands for, in either byte order.
use Prim.Native.Nat.{ℕ, zero, suc, ◌+◌, ◌*◌, ◌^◌, ◌<◌}
use mathlib.Core.Path.{◌≡◌, refl}
use mathlib.Core.List.{List, [], ◌∷◌, ◌++◌}
use native.Mathlib.Omega.{arith}
use app_sia_x.Base.Tests.{Bytes}
use app_sia_x.Base.Lists.{length, replicate}

-- A predicate on every item.
abbrev pub All {ℓ κ} : {A : Type ℓ} → (A → Type κ) → List A → Type κ
All P [] = Unit
All P (x ∷ xs) = P x × All P xs

module _ {ℓ κ} {A : Type ℓ} (P : A → Type κ) where
  pub All-append : (xs ys : List A) → All P xs → All P ys → All P (xs ++ ys)
  All-append [] ys _ hy = hy
  All-append (x ∷ xs) ys (px, hx) hy = (px, All-append xs ys hx hy)

  pub All-split : (xs ys : List A) → All P (xs ++ ys) → All P xs × All P ys
  All-split [] ys h = (tt, h)
  All-split (x ∷ xs) ys (px, h) = let (hx, hy) = All-split xs ys h in ((px, hx), hy)

abbrev pub IsByte : ℕ → Type 0
IsByte b = b < 256

-- The big-endian number that begins with `acc`.
abbrev pub be_from : ℕ → Bytes → ℕ
be_from acc [] = acc
be_from acc (b ∷ bs) = be_from (acc * 256 + b) bs

abbrev pub be_value : Bytes → ℕ
be_value = be_from 0

abbrev pub le_value : Bytes → ℕ
le_value [] = 0
le_value (b ∷ bs) = b + 256 * le_value bs

pub be_from-append :
    (acc : ℕ) (xs ys : Bytes) → be_from acc (xs ++ ys) ≡ be_from (be_from acc xs) ys
be_from-append acc [] ys = refl
be_from-append acc (x ∷ xs) ys = be_from-append (acc * 256 + x) xs ys

pub be_from-zeros : (n : ℕ) (bs : Bytes) → be_value (replicate n 0 ++ bs) ≡ be_value bs
be_from-zeros zero bs = refl
be_from-zeros (suc n) bs = be_from-zeros n bs

-- Four bytes behind `acc` shift it by 32 bits.
pub be_from_word :
    (acc : ℕ) (bs : Bytes) → length bs ≡ 4 → be_from acc bs ≡ acc * 2 ^ 32 + be_value bs
be_from_word acc [] h = absurd (omega arith)
be_from_word acc (a ∷ []) h = absurd (omega arith)
be_from_word acc (a ∷ b ∷ []) h = absurd (omega arith)
be_from_word acc (a ∷ b ∷ c ∷ []) h = absurd (omega arith)
be_from_word acc (a ∷ b ∷ c ∷ d ∷ []) h = omega arith
be_from_word acc (a ∷ b ∷ c ∷ d ∷ e ∷ bs) h = absurd (omega arith)

pub be_value-lt_word : (bs : Bytes) → length bs ≡ 4 → All IsByte bs → be_value bs < 2 ^ 32
be_value-lt_word [] h p = absurd (omega arith)
be_value-lt_word (a ∷ []) h p = absurd (omega arith)
be_value-lt_word (a ∷ b ∷ []) h p = absurd (omega arith)
be_value-lt_word (a ∷ b ∷ c ∷ []) h p = absurd (omega arith)
be_value-lt_word (a ∷ b ∷ c ∷ d ∷ []) h p = omega arith
be_value-lt_word (a ∷ b ∷ c ∷ d ∷ e ∷ bs) h p = absurd (omega arith)

-- A little-endian word in front shifts the rest by 32 bits.
pub le_value_word :
    (bs rest : Bytes) → length bs ≡ 4 → le_value (bs ++ rest) ≡ le_value rest * 2 ^ 32 + le_value bs
le_value_word [] rest h = absurd (omega arith)
le_value_word (a ∷ []) rest h = absurd (omega arith)
le_value_word (a ∷ b ∷ []) rest h = absurd (omega arith)
le_value_word (a ∷ b ∷ c ∷ []) rest h = absurd (omega arith)
le_value_word (a ∷ b ∷ c ∷ d ∷ []) rest h = omega arith
le_value_word (a ∷ b ∷ c ∷ d ∷ e ∷ bs) rest h = absurd (omega arith)

pub le_value-lt_word : (bs : Bytes) → length bs ≡ 4 → All IsByte bs → le_value bs < 2 ^ 32
le_value-lt_word [] h p = absurd (omega arith)
le_value-lt_word (a ∷ []) h p = absurd (omega arith)
le_value-lt_word (a ∷ b ∷ []) h p = absurd (omega arith)
le_value-lt_word (a ∷ b ∷ c ∷ []) h p = absurd (omega arith)
le_value-lt_word (a ∷ b ∷ c ∷ d ∷ []) h p = omega arith
le_value-lt_word (a ∷ b ∷ c ∷ d ∷ e ∷ bs) h p = absurd (omega arith)
