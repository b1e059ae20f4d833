-- ===== src/Currency/Limbs.antt =====
-- Little-endian sequences of 64-bit limbs (`nat[0 .. len)` in src/txn.c): division by ten and
-- normalisation.
use app_sia_x.Base.{
  ℕ, ◌+◌, ◌*◌, ◌^◌, ◌<◌, ◌≡◌, ◌⊎◌, inl, inr, refl, arith, List, [], ◌∷◌, ◌==◌, if◌then◌else◌, All,
}
use app_sia_x.Currency.DivWw.{div_ww10, div_ww10_lem}

-- `quorem10`: from the last limb down to the first, the remainder of one division is the high word
-- of the next. The first part of the result is `nat` as it is left.
unfoldable pub quorem10 : List ℕ → List ℕ × ℕ
quorem10 [] = ([], 0)
quorem10 (x ∷ nat) = let (nat', r) = quorem10 nat in let (q, r') = div_ww10 r x in (q ∷ nat', r')

unfoldable pub cons_limb : ℕ → List ℕ → List ℕ
cons_limb x [] = if x == 0 then [] else x ∷ []
cons_limb x (y ∷ nat) = x ∷ y ∷ nat

-- `while (len > 0 && nat[len-1] == 0) len--;`
unfoldable pub normalize : List ℕ → List ℕ
normalize [] = []
normalize (x ∷ nat) = cons_limb x (normalize nat)

abbrev pub IsLimb : ℕ → Type 0
IsLimb x = x < 2 ^ 64

abbrev pub limbs_value : List ℕ → ℕ
limbs_value [] = 0
limbs_value (x ∷ nat) = x + 2 ^ 64 * limbs_value nat

-- `quorem10` divides the number that 64-bit limbs stand for by ten in place, into 64-bit limbs, and
-- returns the remainder.
pub quorem10_lem :
    (nat : List ℕ)
    → All IsLimb nat
    → let (nat', r) = quorem10 nat in
      (limbs_value nat' * 10 + r ≡ limbs_value nat) × (r < 10) × All IsLimb nat'
unfolding quorem10
quorem10_lem [] h = (omega arith, omega arith, tt)
quorem10_lem (x ∷ nat) (hx, h) =
    let (value, small, limbs) = quorem10_lem nat h in
    let (value', small', limb) = div_ww10_lem (quorem10 nat).1 x small hx in
    (omega arith, small', (limb, limbs))

-- Normalised: the last limb, if there is one, is not zero, so the empty sequence alone is zero.
abbrev pub IsNormal : List ℕ → Type 0
IsNormal nat = (nat ≡ []) ⊎ (0 < limbs_value nat)

cons_limb_lem :
    (x : ℕ) (nat : List ℕ)
    → IsLimb x
    → All IsLimb nat
    → IsNormal nat
    → (limbs_value (cons_limb x nat) ≡ limbs_value (x ∷ nat))
      × All IsLimb (cons_limb x nat)
      × IsNormal (cons_limb x nat)
unfolding cons_limb
cons_limb_lem x [] hx h n = ground arith
cons_limb_lem x (y ∷ nat) hx h (inl e) = absurd (cc)
cons_limb_lem x (y ∷ nat) hx h (inr p) = (refl, (hx, h), inr (omega arith))

-- Dropping zero limbs at the end keeps the value.
pub normalize_lem :
    (nat : List ℕ)
    → All IsLimb nat
    → (limbs_value (normalize nat) ≡ limbs_value nat)
      × All IsLimb (normalize nat)
      × IsNormal (normalize nat)
unfolding normalize
normalize_lem [] h = (refl, tt, inl refl)
normalize_lem (x ∷ nat) (hx, h) =
    let (value, limbs, normal) = normalize_lem nat h in
    let (value', limbs', normal') = cons_limb_lem x (normalize nat) hx limbs normal in
    (omega arith, limbs', normal')
