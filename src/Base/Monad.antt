-- ===== src/Base/Monad.antt =====
-- C functions that change a state and may THROW: the state comes back after a throw too, since
-- what was written stays written. `stuck` is no outcome of the C code: a loop of the model ran out
-- of fuel.
use mathlib.Core.Bool.{Bool, true, false}

pub data Result (E A : Type 0) : Type 0 where
  ok : A → Result E A
  throw : E → Result E A
  stuck : Result E A

abbrev pub Action : Type 0 → Type 0 → Type 0 → Type 0
Action S E A = S → Result E A × S

module _ {S E : Type 0} where
  abbrev pub pure : {A : Type 0} → A → Action S E A
  pure a s = (ok a, s)

  -- `THROW(e)`
  abbrev pub raise : {A : Type 0} → E → Action S E A
  raise e s = (throw e, s)

  -- `if (b) THROW(e);`
  abbrev pub raise_if : Bool → E → Action S E (Unit {0})
  raise_if true e s = (throw e, s)
  raise_if false e s = (ok tt, s)

  abbrev pub gets : {A : Type 0} → (S → A) → Action S E A
  gets f s = (ok (f s), s)

  abbrev pub modify : (S → S) → Action S E (Unit {0})
  modify f s = (ok tt, f s)

-- What stands behind a call, applied to the call's outcome.
abbrev pub continue : {S E A B : Type 0} → (A → Action S E B) → Result E A × S → Result E B × S
continue f (ok a, s) = f a s
continue f (throw e, s) = (throw e, s)
continue f (stuck, s) = (stuck, s)

infixl 5 ◌>>=◌ ◌>>◌
abbrev pub ◌>>=◌ : {S E A B : Type 0} → Action S E A → (A → Action S E B) → Action S E B
◌>>=◌ m f s = continue f (m s)

abbrev pub ◌>>◌ : {S E A B : Type 0} → Action S E A → Action S E B → Action S E B
m >> k = m >>= λ _. k
