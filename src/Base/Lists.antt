-- ===== src/Base/Lists.antt =====
-- C arrays as lists, measured and indexed by native numbers.
use Prim.Native.Nat.{ℕ, zero, suc, ◌+◌, ◌-◌, ◌≤◌, min}
use mathlib.Core.Path.{◌≡◌, refl, ap, sym, ◌∙◌}
use mathlib.Core.List.{List, [], ◌∷◌, ◌++◌}
use native.Mathlib.Nat.{zero-add, suc-add, sub-zero, zero-sub, suc-sub-suc}
use native.Mathlib.Omega.{arith}
use app_sia_x.Base.Tests.{Bytes}

module _ {ℓ} {A : Type ℓ} where
  abbrev pub length : List A → ℕ
  length [] = 0
  length (x ∷ xs) = suc (length xs)

  abbrev pub get_or : List A → ℕ → A → A
  get_or [] i d = d
  get_or (x ∷ xs) zero d = x
  get_or (x ∷ xs) (suc i) d = get_or xs i d

  abbrev pub take : ℕ → List A → List A
  take zero xs = []
  take (suc n) [] = []
  take (suc n) (x ∷ xs) = x ∷ take n xs

  abbrev pub drop : ℕ → List A → List A
  drop zero xs = xs
  drop (suc n) [] = []
  drop (suc n) (x ∷ xs) = drop n xs

  abbrev pub replicate : ℕ → A → List A
  replicate zero a = []
  replicate (suc n) a = a ∷ replicate n a

  -- `memmove(a + i, bs, len)`; what would be written behind the end of `a` is dropped.
  abbrev pub write : List A → ℕ → List A → List A
  write [] i bs = []
  write (x ∷ xs) zero [] = x ∷ xs
  write (x ∷ xs) zero (b ∷ bs) = b ∷ write xs zero bs
  write (x ∷ xs) (suc i) bs = x ∷ write xs i bs

  pub length-append : (xs ys : List A) → length (xs ++ ys) ≡ length xs + length ys
  length-append [] ys = omega arith
  length-append (x ∷ xs) ys = omega (arith, length-append xs ys)

  pub length-take : (n : ℕ) (xs : List A) → length (take n xs) ≡ min n (length xs)
  length-take zero xs = omega arith
  length-take (suc n) [] = omega arith
  length-take (suc n) (x ∷ xs) = omega (arith, length-take n xs)

  pub length-drop : (n : ℕ) (xs : List A) → length (drop n xs) ≡ length xs - n
  length-drop zero xs = omega arith
  length-drop (suc n) [] = omega arith
  length-drop (suc n) (x ∷ xs) = omega (arith, length-drop n xs)

  pub length-replicate : (n : ℕ) (a : A) → length (replicate n a) ≡ n
  length-replicate zero a = refl
  length-replicate (suc n) a = ap suc (length-replicate n a)

  pub length-write : (xs : List A) (i : ℕ) (bs : List A) → length (write xs i bs) ≡ length xs
  length-write [] i bs = refl
  length-write (x ∷ xs) zero [] = refl
  length-write (x ∷ xs) zero (b ∷ bs) = ap suc (length-write xs zero bs)
  length-write (x ∷ xs) (suc i) bs = ap suc (length-write xs i bs)

module _ {ℓ} {A : Type ℓ} where
  pub take-append-drop : (n : ℕ) (xs : List A) → take n xs ++ drop n xs ≡ xs
  take-append-drop zero xs = refl
  take-append-drop (suc n) [] = refl
  take-append-drop (suc n) (x ∷ xs) = rw (take-append-drop n xs)

  -- The first bytes of a buffer that was written at its end, and at its start.
  pub take-write_end :
      (xs : List A) (i : ℕ) (bs : List A)
      → i + length bs ≤ length xs
      → take (i + length bs) (write xs i bs) ≡ take i xs ++ bs
  take-write_end [] zero [] h = refl
  take-write_end [] zero (b ∷ bs) h = absurd (omega arith)
  take-write_end [] (suc i) bs h = absurd (omega arith)
  take-write_end (x ∷ xs) zero [] h = refl
  take-write_end (x ∷ xs) zero (b ∷ bs) h =
      rw zero-add (ap (◌∷◌ b) (rw zero-add at (take-write_end xs zero bs (omega arith))))
  take-write_end (x ∷ xs) (suc i) bs h =
      rw suc-add (ap (◌∷◌ x) (take-write_end xs i bs (omega arith)))

  pub take-write_start :
      (xs bs : List A) → length bs ≤ length xs → take (length bs) (write xs 0 bs) ≡ bs
  take-write_start xs [] h = refl
  take-write_start [] (b ∷ bs) h = absurd (omega arith)
  take-write_start (x ∷ xs) (b ∷ bs) h = ap (◌∷◌ b) (take-write_start xs bs (omega arith))

  take-nil : (n : ℕ) → take {A = A} n [] ≡ []
  take-nil zero = refl
  take-nil (suc n) = refl

  drop-nil : (n : ℕ) → drop {A = A} n [] ≡ []
  drop-nil zero = refl
  drop-nil (suc n) = refl

  pub drop-take : (n m : ℕ) (xs : List A) → drop n (take m xs) ≡ take (m - n) (drop n xs)
  drop-take zero m xs = rw sub-zero
  drop-take (suc n) zero xs = rw zero-sub
  drop-take (suc n) (suc m) [] = rw (take-nil (suc m - suc n))
  drop-take (suc n) (suc m) (x ∷ xs) = rw suc-sub-suc (drop-take n m xs)

  pub drop-drop : (n m : ℕ) (xs : List A) → drop n (drop m xs) ≡ drop (m + n) xs
  drop-drop n zero xs = rw zero-add
  drop-drop n (suc m) [] = rw (drop-nil n, drop-nil (suc m + n))
  drop-drop n (suc m) (x ∷ xs) = rw suc-add (drop-drop n m xs)

  pub write-nil : (xs : List A) (i : ℕ) → write xs i [] ≡ xs
  write-nil [] i = refl
  write-nil (x ∷ xs) zero = refl
  write-nil (x ∷ xs) (suc i) = ap (◌∷◌ x) (write-nil xs i)

  -- Two writes side by side are one, in either order.
  pub write_after :
      (xs : List A) (i : ℕ) (ys zs : List A)
      → write (write xs i ys) (i + length ys) zs ≡ write xs i (ys ++ zs)
  write_after [] i ys zs = refl
  write_after (x ∷ xs) zero [] zs = refl
  write_after (x ∷ xs) zero (y ∷ ys) zs =
      rw zero-add (ap (◌∷◌ y) (rw zero-add at (write_after xs zero ys zs)))
  write_after (x ∷ xs) (suc i) ys zs = rw suc-add (ap (◌∷◌ x) (write_after xs i ys zs))

  pub write_before :
      (xs : List A) (i : ℕ) (ys zs : List A)
      → write (write xs (i + length ys) zs) i ys ≡ write xs i (ys ++ zs)
  write_before [] i ys zs = refl
  write_before (x ∷ xs) zero [] [] = refl
  write_before (x ∷ xs) zero [] (z ∷ zs) = refl
  write_before (x ∷ xs) zero (y ∷ ys) zs =
      rw zero-add (ap (◌∷◌ y) (rw zero-add at (write_before xs zero ys zs)))
  write_before (x ∷ xs) (suc i) ys zs = rw suc-add (ap (◌∷◌ x) (write_before xs i ys zs))

  pub take_add : (n m : ℕ) (xs : List A) → take (n + m) xs ≡ take n xs ++ take m (drop n xs)
  take_add zero m xs = rw zero-add
  take_add (suc n) m [] = rw (take-nil (suc n + m), take-nil m)
  take_add (suc n) m (x ∷ xs) = rw suc-add (ap (◌∷◌ x) (take_add n m xs))

  pub take-append_self : (xs ys : List A) → take (length xs) (xs ++ ys) ≡ xs
  take-append_self [] ys = refl
  take-append_self (x ∷ xs) ys = ap (◌∷◌ x) (take-append_self xs ys)

  pub drop-append_self : (xs ys : List A) → drop (length xs) (xs ++ ys) ≡ ys
  drop-append_self [] ys = refl
  drop-append_self (x ∷ xs) ys = drop-append_self xs ys

  pub take-take : (n m : ℕ) (xs : List A) → n ≤ m → take n (take m xs) ≡ take n xs
  take-take zero m xs h = refl
  take-take (suc n) zero xs h = absurd (omega arith)
  take-take (suc n) (suc m) [] h = refl
  take-take (suc n) (suc m) (x ∷ xs) h = ap (◌∷◌ x) (take-take n m xs (omega arith))

module _ {ℓ} {A : Type ℓ} where
  pub take_all : (xs : List A) → take (length xs) xs ≡ xs
  take_all [] = refl
  take_all (x ∷ xs) = ap (◌∷◌ x) (take_all xs)

  pub take_whole : (n : ℕ) (xs : List A) → length xs ≡ n → take n xs ≡ xs
  take_whole n xs e = ap (λ k. take k xs) (sym e) ∙ take_all xs

abbrev pub byte_at : Bytes → ℕ → ℕ
byte_at buf i = get_or buf i 0
