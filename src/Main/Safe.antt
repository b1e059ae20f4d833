-- ===== src/Main/Safe.antt =====
-- What keeps the decoder safe when other commands use the memory of its context (src/sia_ux.h), and
-- the branches and exceptions of the main loop (src/main.c).
use app_sia_x.Base.{
  ℕ, ◌||◌, [], ◌∷◌, ◌++◌, take, ◌≡◌, ◌≢◌, inl, inr, ◌⊎◌, refl, Bool, true, false, ◌==◌,
  if◌then◌else◌, Result, ok, throw, stuck, raise, ◌∙◌,
}
use app_sia_x.Txn.Advance.{IsValid}
use app_sia_x.Device.Contexts.{CalcTxnHashContext, Spares}
use app_sia_x.Device.{Screen, show_txn_elem, Device}
use app_sia_x.Calc.Session.{IsSafe, EndsSafely}
use app_sia_x.Main.{status_word, send_reply, store_word, catch_other}

module _ {C : Type 0} where
  pub Spares-IsValid : {c c' : CalcTxnHashContext C} → Spares c c' → IsValid c.txn → IsValid c'.txn
  Spares-IsValid s h = record {
    cap = s.same_buf_size ∙ h.cap;
    fits = rw s.same_buflen h.fits;
    seeked = rw (s.same_pos, s.same_buflen) h.seeked;
    counted = rw (s.same_elem_type, s.same_slice_index, s.same_slice_len) h.counted;
  }

  abbrev pub SafeIn : CalcTxnHashContext C → Screen → Type 0
  SafeIn c s = IsValid c.txn ⊎ ((c.initialized ≡ false) × (s ≢ show_txn_elem))

  -- A screen of another command does not call the decoder.
  pub Spares-SafeIn :
      (c c' : CalcTxnHashContext C) (s s' : Screen)
      → Spares c c'
      → s' ≢ show_txn_elem
      → SafeIn c s
      → SafeIn c' s'
  Spares-SafeIn c c' s s' spares ne (inl h) = inl (Spares-IsValid spares h)
  Spares-SafeIn c c' s s' spares ne (inr (e, _)) = inr (spares.same_initialized ∙ e, ne)

  pub other_screen-SafeIn :
      (c : CalcTxnHashContext C) (s s' : Screen) → s' ≢ show_txn_elem → SafeIn c s → SafeIn c s'
  other_screen-SafeIn c s s' ne (inl h) = inl h
  other_screen-SafeIn c s s' ne (inr (e, _)) = inr (e, ne)

  pub raised : (e : ℕ) (d : Device C) → IsSafe d → EndsSafely (raise {A = Unit {0}} e d)
  raised e d h = (λ p. cc, h)

  pub IsSafe-if : (b : Bool) (x y : Device C) → IsSafe x → IsSafe y → IsSafe (if b then x else y)
  IsSafe-if true x y p q = p
  IsSafe-if false x y p q = q

  pub send_reply-IsSafe : (tx : ℕ) (d : Device C) → IsSafe d → IsSafe (send_reply tx d)
  unfolding send_reply
  send_reply-IsSafe tx d h =
      IsSafe-if (d.asynch || (tx == 0)) d (record d { sent = d.sent ++ take tx d.apdu ∷ [] }) h h

  pub either_ends :
      {A : Type 0} (b : Bool) (x y : Result ℕ A × Device C)
      → EndsSafely x
      → EndsSafely y
      → EndsSafely (if b then x else y)
  either_ends true x y p q = p
  either_ends false x y p q = q

  pub loop_either :
      {E A : Type 0} (b : Bool) (x y : Result E A × Device C)
      → (x.0 ≢ stuck) × IsSafe x.1
      → (y.0 ≢ stuck) × IsSafe y.1
      → ((if b then x else y).0 ≢ stuck) × IsSafe (if b then x else y).1
  loop_either true x y p q = p
  loop_either false x y p q = q

  -- A handler that ends leaves a safe state, and the loop goes on.
  pub catch_other_safely :
      {E : Type 0} (res : Result ℕ (Unit {0}) × Device C)
      → EndsSafely res
      → ((catch_other {E = E} res).0 ≢ stuck) × IsSafe (catch_other {E = E} res).1
  unfolding catch_other store_word
  catch_other_safely (ok _, d) (ne, h) = (λ e. cc, send_reply-IsSafe 0 d h)
  catch_other_safely (throw e, d) (ne, h) =
      (λ e. cc, send_reply-IsSafe 2 (store_word (status_word e) d) h)
  catch_other_safely (stuck, d) (ne, h) = absurd (ne refl)
