-- ===== src/Txn/TakenShown.antt =====
-- What the readers of src/txn.c that fill the strings for display have taken: a value behind its
-- length, and a hash.
use app_sia_x.Base.{
  ℕ, ◌-◌, ◌≡◌, refl, arith, Bool, true, false, [], append-nil, Bytes, length, drop, u8, Result, ok,
  throw, stuck, pure, sym, modify,
}
use app_sia_x.Sdk.{Sdk, IsSdk}
use app_sia_x.Codes.{TxnDecoderState}
use app_sia_x.Currency.Cur2Dec.{cur2dec}
use app_sia_x.Txn.State.{TxnState, TxnAction}
use app_sia_x.Txn.Read.{
  need_at_least, seek, read_int, show_value, read_currency, show_address, read_hash,
}
use app_sia_x.Txn.Decode.{label_fee}
use app_sia_x.Txn.Advance.{IsValid}
use app_sia_x.Txn.Absorb.{part}
use app_sia_x.Txn.Consumes.{
  Took, Consumes, IsNothing, bind-Consumes, imply-Consumes, pure-Consumes, need_at_least-Consumes,
  seek-Consumes,
}
use app_sia_x.Txn.Taken.{IsInt, IsPrefixed, read_int-Consumes}

module _ {C : Type 0} (sdk : Sdk C) where
  show_value-Consumes : Consumes {C = C} IsNothing (show_value sdk)
  unfolding show_value
  show_value-Consumes = record {
    takes = λ t valid bytes. by_result t valid (cur2dec sdk t.out_val (drop (t.pos - 8) t.buf));
  }
    where
      by_result :
          (t : TxnState C)
          → IsValid t
          → (r : Result TxnDecoderState (Bytes × ℕ))
          → Took {A = Unit {0}} IsNothing t (elim r [
            | ok (out_val, len) ↦ (ok tt, record t { out_val = out_val; val_len = u8 len })
            | throw e ↦ (throw e, t)
            | stuck ↦ (stuck, t)
          ])
      by_result t valid (ok (out_val, len)) = ([], ground arith, refl, sym (append-nil (part t)))
      by_result t valid (throw e) = tt
      by_result t valid stuck = tt

  show_address-Consumes : Consumes IsNothing (modify (show_address {C = C} sdk))
  unfolding show_address
  show_address-Consumes = record {
    takes = λ t valid bytes. ([], ground arith, refl, sym (append-nil (part t)));
  }

  pub label_fee-Consumes : Consumes IsNothing (modify (label_fee {C = C} sdk))
  unfolding label_fee
  label_fee-Consumes = record {
    takes = λ t valid bytes. ([], ground arith, refl, sym (append-nil (part t)));
  }

  when_shown :
      (shown : Bool) (m : TxnAction C (Unit {0}))
      → Consumes IsNothing m
      → Consumes {C = C} IsNothing (elim shown [ true ↦ m | false ↦ pure tt ])
  when_shown true m h = h
  when_shown false m h = pure-Consumes IsNothing tt refl

  pub read_hash-Consumes : (shown : Bool) → Consumes (λ _ bs. length bs ≡ 32) (read_hash sdk shown)
  unfolding read_hash
  read_hash-Consumes shown =
      bind-Consumes IsNothing _ (need_at_least 32) _ (need_at_least-Consumes 32) λ _ xs none.
        bind-Consumes IsNothing _ _ _
          (when_shown shown (modify (show_address sdk)) show_address-Consumes)
          λ _ ys none'.
            imply-Consumes _ _ (seek 32) (λ _ zs size. rw (none, none') size) (seek-Consumes 32)

  pub read_currency-Consumes :
      IsSdk sdk → (shown : Bool) → Consumes IsPrefixed (read_currency sdk shown)
  unfolding read_currency
  read_currency-Consumes laws shown =
      bind-Consumes IsInt IsPrefixed (read_int sdk) _ (read_int-Consumes sdk laws)
        λ len ws (less, e).
          bind-Consumes IsNothing _ (need_at_least len) _ (need_at_least-Consumes len) λ _ xs none.
            bind-Consumes IsNothing _ _ _ (when_shown shown (show_value sdk) show_value-Consumes)
              λ _ ys none'.
                imply-Consumes _ _ (seek len)
                  (λ _ v size. (v, omega arith, rw (none, none', size, e) refl)) (seek-Consumes len)
