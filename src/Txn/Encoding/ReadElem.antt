-- ===== src/Txn/Encoding/ReadElem.antt =====
-- The `switch` of src/txn.c takes the element at the front of the stream, if it is there whole.
use app_sia_x.Base.{
  ℕ, ◌+◌, ◌≤◌, ◌≡◌, refl, ap, ◌∙◌, arith, true, List, [], ◌∷◌, ◌++◌, append-nil, Bytes, length,
  length-append, take, modify, raise, ◌>>◌,
}
use mathlib.Core.Path.{subst}
use app_sia_x.Sdk.{Sdk, IsSdk}
use app_sia_x.Codes.{ready}
use app_sia_x.Txn.State.{
  ElemType, sc_input, sc_output, sf_input, sf_output, miner_fee, txn_sig, TxnState, TxnAction,
}
use app_sia_x.Txn.Read.{read_currency, read_hash}
use app_sia_x.Txn.Decode.{end_elem, read_elem}
use app_sia_x.Txn.Encoding.{
  u64_bytes, prefixed, UnlockConditions, encode_conditions, empty_fields, Elem, coin_input,
  coin_output, fund_input, fund_output, fee, signature, Display, payment, payment_of_fee, displays,
  encode_elem, IsValue,
}
use app_sia_x.Txn.Encoding.Words.{length-le_bytes}
use app_sia_x.Txn.Encoding.Fields.{
  read_int-Parses, read_prefixed_bytes-Parses, read_hash-Parses, read_currency-Parses,
  read_unlock_conditions-Parses, read_covered_fields-Parses,
}
use app_sia_x.Txn.Encoding.Shown.{
  screen_of, Amount, read_currency_shown-Parses, label_fee-Parses, same-Amount,
}
use app_sia_x.Txn.Encoding.Stage.{Shows, Outcome}
use app_sia_x.Txn.Encoding.ShownAddress.{read_hash_shown-Parses}
use app_sia_x.Txn.Encoding.Leads.{AtElem, sized, Leads, then-Leads, last-Leads, led}
use app_sia_x.Txn.Encoding.EndElem.{shown_end, input_end, signature_end}

length-prefixed : (bs : Bytes) → length (prefixed bs) ≡ 8 + length bs
length-prefixed bs =
    omega (arith, length-append (u64_bytes (length bs)) bs, length-le_bytes 8 (length bs))

module _ {C : Type 0} (sdk : Sdk C) (laws : IsSdk sdk) (sig_index : ℕ) (all future : Bytes)
    (n i head : ℕ) (bs cs : Bytes) (ds : List Display) (t : TxnState C) where
  abbrev Here : {e : ElemType} → Elem e → Type 0
  Here x = AtElem sdk sig_index all future n i head bs cs ds x t

  abbrev Taken : {e : ElemType} → Elem e → Type 0
  Taken {e} x = Outcome sdk sig_index all future (displays x ++ ds) t.buflen (read_elem sdk e t)

  -- Nothing is shown.
  abbrev Silently : TxnState C → Type 0
  Silently u = Unit {0}

  coin_input-Taken :
      (parent : Bytes) (c : UnlockConditions)
      → Here (coin_input parent c)
      → Taken (coin_input parent c)
  unfolding read_elem
  coin_input-Taken parent c here =
      let (size, is) = here.is_elem.shape in
      let conditions = encode_conditions c in
      let some_byte : 1 ≤ length (encode_elem (coin_input parent c)) =
        omega (arith, length-append parent conditions) in
      led sdk laws here Silently (read_elem sdk sc_input) tt (
        then-Leads sdk laws here _ parent conditions tt {Q = Silently} (λ u v kept p r. tt) _
          (read_hash-Parses sdk laws parent size)
          (last-Leads sdk laws here _ conditions tt {Q = Silently} (λ u v kept p r. tt) _
            (read_unlock_conditions-Parses sdk laws c is)
            (input_end sdk laws here some_byte Silently refl refl refl)))

  fund_input-Taken :
      (parent : Bytes) (c : UnlockConditions) (claim : Bytes)
      → Here (fund_input parent c claim)
      → Taken (fund_input parent c claim)
  unfolding read_elem
  fund_input-Taken parent c claim here =
      let (size, is, claim_size) = here.is_elem.shape in
      let conditions = encode_conditions c in
      let some_byte : 1 ≤ length (encode_elem (fund_input parent c claim)) =
        omega (arith, length-append parent (conditions ++ claim)) in
      led sdk laws here Silently (read_elem sdk sf_input) tt (
        then-Leads sdk laws here _ parent (conditions ++ claim) tt {Q = Silently}
          (λ u v kept p r. tt) _ (read_hash-Parses sdk laws parent size)
          (then-Leads sdk laws here _ conditions claim tt {Q = Silently} (λ u v kept p r. tt) _
            (read_unlock_conditions-Parses sdk laws c is)
            (last-Leads sdk laws here _ claim tt {Q = Silently} (λ u v kept p r. tt) _
              (read_hash-Parses sdk laws claim claim_size)
              (input_end sdk laws here some_byte Silently refl refl refl))))

  signature-Taken :
      (parent : Bytes) (key_index timelock : ℕ) (sig : Bytes)
      → Here (signature parent key_index timelock sig)
      → Taken (signature parent key_index timelock sig)
  unfolding read_elem
  signature-Taken parent key_index timelock sig here =
      let (size, key_range, lock_range, sig_range) = here.is_elem.shape in
      let key_bytes = u64_bytes key_index in
      let lock_bytes = u64_bytes timelock in
      let marked = 1 ∷ empty_fields 10 in
      let tail = marked ++ prefixed sig in
      let whole_size : 48 ≤ length (encode_elem (signature parent key_index timelock sig)) = omega (
        arith,
        length-append parent (key_bytes ++ (lock_bytes ++ tail)),
        length-append key_bytes (lock_bytes ++ tail),
        length-append lock_bytes tail,
        length-le_bytes 8 key_index,
        length-le_bytes 8 timelock,
      ) in
      led sdk laws here Silently (read_elem sdk txn_sig) tt (
        then-Leads sdk laws here _ parent (key_bytes ++ (lock_bytes ++ tail)) tt {Q = Silently}
          (λ u v kept p r. tt) _ (read_hash-Parses sdk laws parent size)
          (then-Leads sdk laws here _ key_bytes (lock_bytes ++ tail) key_index {Q = Silently}
            (λ u v kept p r. tt) _ (read_int-Parses sdk laws key_index key_range)
            (then-Leads sdk laws here _ lock_bytes tail timelock {Q = Silently} (λ u v kept p r. tt)
              _ (read_int-Parses sdk laws timelock lock_range)
              (then-Leads sdk laws here _ marked (prefixed sig) tt {Q = Silently}
                (λ u v kept p r. tt) _ (read_covered_fields-Parses sdk laws)
                (last-Leads sdk laws here _ (prefixed sig) tt {Q = Silently} (λ u v kept p r. tt) _
                  (read_prefixed_bytes-Parses sdk laws sig sig_range)
                  (signature_end sdk laws here (omega arith) Silently refl refl whole_size))))))

  abbrev Valued : Bytes → TxnState C → Type 0
  Valued value u = Amount value (screen_of u)

  abbrev Paid : Bytes → Bytes → TxnState C → Type 0
  Paid value unlock_hash u = Shows sdk (payment value unlock_hash) (screen_of u)

  -- The value and the address of an output, in front of what stands behind them.
  output-Leads :
      {e : ElemType} {x : Elem e} (here : Here x) (value unlock_hash ys : Bytes)
      (m : TxnAction C (Unit {0}))
      → IsValue value
      → length unlock_hash ≡ 32
      → Leads sdk laws here (Paid value unlock_hash) ys m
      → Leads sdk laws here Silently
          (prefixed value ++ (unlock_hash ++ ys))
          (read_currency sdk true >> (read_hash sdk true >> m))
  output-Leads here value unlock_hash ys m is size rest =
      then-Leads sdk laws here _ (prefixed value) (unlock_hash ++ ys) tt {Q = Valued value}
        (λ u v kept p r. r.amount (sized sdk laws here u kept).0) _
        (read_currency_shown-Parses sdk laws value is)
        (then-Leads sdk laws here _ unlock_hash ys tt {Q = Paid value unlock_hash}
          (λ u v kept p r. (
            same-Amount value u v r.same_out_val r.same_val_len p,
            r.address (sized sdk laws here u kept).1,
          ))
          _ (read_hash_shown-Parses sdk laws unlock_hash size) rest)

  coin_output-Taken :
      (value unlock_hash : Bytes)
      → Here (coin_output value unlock_hash)
      → Taken (coin_output value unlock_hash)
  unfolding read_elem
  coin_output-Taken value unlock_hash here =
      let (is, size) = here.is_elem.shape in
      let some_byte : 1 ≤ length (encode_elem (coin_output value unlock_hash)) =
        omega (arith, length-append (prefixed value) unlock_hash) in
      let all =
        output-Leads here value unlock_hash [] _ is size
          (shown_end sdk laws here some_byte (payment value unlock_hash) refl refl tt refl) in
      led sdk laws here Silently (read_elem sdk sc_output) tt (
        subst (λ b. Leads sdk laws here Silently (prefixed value ++ b) (read_elem sdk sc_output))
          (append-nil unlock_hash) all)

  fund_output-Taken :
      (value unlock_hash claim : Bytes)
      → Here (fund_output value unlock_hash claim)
      → Taken (fund_output value unlock_hash claim)
  unfolding read_elem
  fund_output-Taken value unlock_hash claim here =
      let (is, size, range) = here.is_elem.shape in
      let some_byte : 1 ≤ length (encode_elem (fund_output value unlock_hash claim)) = omega (
        arith,
        length-append (prefixed value) (unlock_hash ++ prefixed claim),
        length-append unlock_hash (prefixed claim),
      ) in
      led sdk laws here Silently (read_elem sdk sf_output) tt (
        output-Leads here value unlock_hash (prefixed claim) _ is size (
          last-Leads sdk laws here _ (prefixed claim) tt {Q = Paid value unlock_hash}
            (λ u v kept p r. (
              same-Amount value u v r.same_out_val r.same_val_len p.0,
              ap (take 77) r.same_out_addr ∙ p.1,
            ))
            _ (read_currency-Parses sdk laws claim range)
            (shown_end sdk laws here some_byte (payment value unlock_hash) refl refl tt refl)))

  fee-Taken : (value : Bytes) → Here (fee value) → Taken (fee value)
  unfolding read_elem
  fee-Taken value here =
      let is = here.is_elem.shape in
      let some_byte : 1 ≤ length (encode_elem (fee value)) = omega (arith, length-prefixed value) in
      let Labelled : TxnState C → Type 0 = λ u. Shows sdk (payment_of_fee value) (screen_of u) in
      led sdk laws here Silently (read_elem sdk miner_fee) tt (
        last-Leads sdk laws here _ (prefixed value) tt {Q = Valued value}
          (λ u v kept p r. r.amount (sized sdk laws here u kept).0) _
          (read_currency_shown-Parses sdk laws value is)
          (then-Leads sdk laws here (λ _. modify (end_elem sdk) >> raise ready) [] [] tt
            {Q = Labelled}
            (λ u v kept p r. (
              same-Amount value u v r.same_out_val r.same_val_len p,
              r.label (sized sdk laws here u kept).1,
            ))
            _ (label_fee-Parses sdk)
            (shown_end sdk laws here some_byte (payment_of_fee value) refl refl tt refl)))

  pub read_elem-Taken : {e : ElemType} (x : Elem e) → Here x → Taken x
  read_elem-Taken (coin_input parent c) here = coin_input-Taken parent c here
  read_elem-Taken (coin_output value unlock_hash) here = coin_output-Taken value unlock_hash here
  read_elem-Taken (fund_input parent c claim) here = fund_input-Taken parent c claim here
  read_elem-Taken (fund_output value unlock_hash claim) here =
      fund_output-Taken value unlock_hash claim here
  read_elem-Taken (fee value) here = fee-Taken value here
  read_elem-Taken (signature parent key_index timelock sig) here =
      signature-Taken parent key_index timelock sig here
