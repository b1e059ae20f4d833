-- ===== src/Base/Writes.antt =====
-- Writes into C arrays that meet or overlap.
use Prim.Native.Nat.{ℕ, zero, suc, ◌+◌, ◌≤◌, ◌<◌}
use mathlib.Core.Path.{◌≡◌, refl, ap, sym, ◌∙◌}
use mathlib.Core.List.{[], ◌∷◌, ◌++◌}
use native.Mathlib.Nat.{zero-add, suc-add}
use native.Mathlib.Omega.{arith}
use app_sia_x.Base.Tests.{Bytes}
use app_sia_x.Base.Lists.{length, write, write-nil, write_after, byte_at}

pub write_over :
    (a : Bytes) (i : ℕ) (xs ys : Bytes)
    → length xs ≤ length ys
    → write (write a i xs) i ys ≡ write a i ys
write_over [] i xs ys h = refl
write_over (x ∷ a) zero [] ys h = refl
write_over (x ∷ a) zero (b ∷ xs) [] h = absurd (omega arith)
write_over (x ∷ a) zero (b ∷ xs) (c ∷ ys) h = ap (◌∷◌ c) (write_over a zero xs ys (omega arith))
write_over (x ∷ a) (suc i) xs ys h = ap (◌∷◌ x) (write_over a i xs ys h)

-- What stands behind `xs` is replaced as a whole.
pub write_tail :
    (a xs ys zs : Bytes)
    → length ys ≤ length zs
    → write (write a 0 (xs ++ ys)) (length xs) zs ≡ write a 0 (xs ++ zs)
write_tail a [] ys zs h = write_over a 0 ys zs h
write_tail [] (x ∷ xs) ys zs h = refl
write_tail (b ∷ a) (x ∷ xs) ys zs h = ap (◌∷◌ x) (write_tail a xs ys zs h)

pub write_byte :
    (a xs : Bytes) (y z : ℕ) (ys : Bytes)
    → write (write a 0 (xs ++ y ∷ ys)) (length xs) (z ∷ []) ≡ write a 0 (xs ++ z ∷ ys)
write_byte [] xs y z ys = refl
write_byte (b ∷ a) [] y z ys = ap (◌∷◌ z) (write-nil (write a 0 ys) 0)
write_byte (b ∷ a) (x ∷ xs) y z ys = ap (◌∷◌ x) (write_byte a xs y z ys)

pub byte_at-write :
    (a t : Bytes) (k : ℕ)
    → k < length t
    → length t ≤ length a
    → byte_at (write a 0 t) k ≡ byte_at t k
byte_at-write a [] k h le = absurd (omega arith)
byte_at-write [] (x ∷ t) k h le = absurd (omega arith)
byte_at-write (b ∷ a) (x ∷ t) zero h le = refl
byte_at-write (b ∷ a) (x ∷ t) (suc k) h le = byte_at-write a t k (omega arith) (omega arith)

-- A whole array is replaced.
pub write_whole : (xs ys : Bytes) → length ys ≡ length xs → write xs 0 ys ≡ ys
write_whole [] [] h = refl
write_whole [] (y ∷ ys) h = absurd (omega arith)
write_whole (x ∷ xs) [] h = absurd (omega arith)
write_whole (x ∷ xs) (y ∷ ys) h = ap (◌∷◌ y) (write_whole xs ys (omega arith))

pub write_front : (xs ys zs : Bytes) → length zs ≡ length xs → write (xs ++ ys) 0 zs ≡ zs ++ ys
write_front [] ys [] h = write-nil ys 0
write_front [] ys (z ∷ zs) h = absurd (omega arith)
write_front (x ∷ xs) ys [] h = absurd (omega arith)
write_front (x ∷ xs) ys (z ∷ zs) h = ap (◌∷◌ z) (write_front xs ys zs (omega arith))

pub write_back :
    (xs ys zs : Bytes) → length zs ≡ length ys → write (xs ++ ys) (length xs) zs ≡ xs ++ zs
write_back [] [] [] h = refl
write_back [] [] (z ∷ zs) h = absurd (omega arith)
write_back [] (y ∷ ys) [] h = absurd (omega arith)
write_back [] (y ∷ ys) (z ∷ zs) h = ap (◌∷◌ z) (write_back [] ys zs (omega arith))
write_back (x ∷ xs) ys zs h = ap (◌∷◌ x) (write_back xs ys zs h)

write_first :
    (a : Bytes) (i : ℕ) (y z : ℕ) (ys : Bytes)
    → write (write a i (y ∷ ys)) i (z ∷ []) ≡ write a i (z ∷ ys)
write_first [] i y z ys = refl
write_first (b ∷ a) zero y z ys = ap (◌∷◌ z) (write-nil (write a 0 ys) 0)
write_first (b ∷ a) (suc i) y z ys = ap (◌∷◌ b) (write_first a i y z ys)

-- The same at any offset.
pub write_tail_at :
    (a : Bytes) (i : ℕ) (xs ys zs : Bytes)
    → length ys ≤ length zs
    → write (write a i (xs ++ ys)) (i + length xs) zs ≡ write a i (xs ++ zs)
write_tail_at a i xs ys zs h =
    ap (λ b. write b (i + length xs) zs) (sym (write_after a i xs ys))
    ∙ write_over (write a i xs) (i + length xs) ys zs h
    ∙ write_after a i xs zs

pub write_byte_at :
    (a : Bytes) (i : ℕ) (xs : Bytes) (y z : ℕ) (ys : Bytes)
    → write (write a i (xs ++ y ∷ ys)) (i + length xs) (z ∷ []) ≡ write a i (xs ++ z ∷ ys)
write_byte_at a i xs y z ys =
    ap (λ b. write b (i + length xs) (z ∷ [])) (sym (write_after a i xs (y ∷ ys)))
    ∙ write_first (write a i xs) (i + length xs) y z ys
    ∙ write_after a i xs (z ∷ ys)

pub byte_at-write_at :
    (a : Bytes) (i : ℕ) (t : Bytes) (k : ℕ)
    → k < length t
    → i + length t ≤ length a
    → byte_at (write a i t) (i + k) ≡ byte_at t k
byte_at-write_at a i [] k h le = absurd (omega arith)
byte_at-write_at [] i (x ∷ t) k h le = absurd (omega arith)
byte_at-write_at (b ∷ a) zero (x ∷ t) zero h le = refl
byte_at-write_at (b ∷ a) zero (x ∷ t) (suc k) h le =
    rw zero-add (rw zero-add at (byte_at-write_at a zero t k (omega arith) (omega arith)))
byte_at-write_at (b ∷ a) (suc i) (x ∷ t) k h le =
    rw suc-add (byte_at-write_at a i (x ∷ t) k h (omega arith))

-- What does not fit is dropped.
pub write_clip : (a xs ys : Bytes) → length xs ≡ length a → write a 0 (xs ++ ys) ≡ xs
write_clip [] [] ys h = refl
write_clip [] (x ∷ xs) ys h = absurd (omega arith)
write_clip (b ∷ a) [] ys h = absurd (omega arith)
write_clip (b ∷ a) (x ∷ xs) ys h = ap (◌∷◌ x) (write_clip a xs ys (omega arith))
