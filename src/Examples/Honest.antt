-- ===== src/Examples/Honest.antt =====
-- An output, a fee and a signature, sent to the decoder (src/txn.c) in two packets.
use app_sia_x.Base.{refl, arith, [], ◌∷◌, Bytes, take, drop, replicate, List}
use app_sia_x.Txn.State.{ElemType, sc_output, miner_fee, txn_sig}
use app_sia_x.Txn.Encoding.{
  coin_output, fee, signature, Transaction, slice_of, encode, covered, approvals, IsElem, IsSlice,
  IsTransaction,
}
use app_sia_x.Txn.Honest.{decode_transaction, Completes, decode_transaction-Completes}
use app_sia_x.Blake2b.{blake2b}
use app_sia_x.Calc.Dialog.{sign_transaction, Asks}
use app_sia_x.Calc.Dialog.Signs.{sign_transaction-Asks}
use app_sia_x.Examples.Command.{toy_keys, boot_device}
use app_sia_x.Examples.App.{toy_keys-IsKeySdk}
use app_sia_x.Examples.Toy.{toy, toy-IsSdk}

abbrev payment_tx : Transaction
payment_tx = record {
  sc_inputs = [];
  sc_outputs = coin_output (1 ∷ 0 ∷ []) (replicate 32 0xab) ∷ [];
  sf_inputs = [];
  sf_outputs = [];
  miner_fees = fee (7 ∷ []) ∷ [];
  signatures = signature (replicate 32 0xcd) 0 0 [] ∷ [];
}

abbrev packets : List Bytes
unfolding encode
packets = take 100 (encode payment_tx) ∷ drop 100 (encode payment_tx) ∷ []

output-IsElem : IsElem (coin_output (1 ∷ 0 ∷ []) (replicate 32 0xab))
output-IsElem = record {
  shape = (record { positive = omega arith; small = omega arith; bytes = omega arith }, refl);
  short = omega arith;
}

fee-IsElem : IsElem (fee (7 ∷ []))
fee-IsElem = record {
  shape = record { positive = omega arith; small = omega arith; bytes = omega arith };
  short = omega arith;
}

signature-IsElem : IsElem (signature (replicate 32 0xcd) 0 0 [])
signature-IsElem = record {
  shape = (refl, omega arith, omega arith, omega arith);
  short = omega arith;
}

payment-slices : (e : ElemType) → IsSlice (slice_of payment_tx e)
payment-slices sc_output = (omega arith, (output-IsElem, tt))
payment-slices miner_fee = (omega arith, (fee-IsElem, tt))
payment-slices txn_sig = (omega arith, (signature-IsElem, tt))
payment-slices _ = (omega arith, tt)

payment-IsTransaction : IsTransaction 0 payment_tx
payment-IsTransaction = record { slices = payment-slices; signed = omega arith }

decode_transaction-Completes_example :
    Completes toy
      (covered 0 payment_tx)
      (approvals payment_tx)
      (decode_transaction toy 400 0 packets)
unfolding encode
decode_transaction-Completes_example =
    decode_transaction-Completes toy toy-IsSdk 0 payment_tx packets 400 payment-IsTransaction refl
      (omega arith, (omega arith, tt)) (omega arith)

-- The same to the device, for key 3 and signature 0, in front of stale bytes.
abbrev header : Bytes
header = 3 ∷ replicate 5 0

abbrev stale : Bytes
stale = replicate 4 0xee

abbrev front : Bytes
unfolding encode
front = take 100 (encode payment_tx)

abbrev later : List Bytes
unfolding encode
later = drop 100 (encode payment_tx) ∷ []

sign_transaction-Asks_example :
    Asks toy_keys 3
      (blake2b toy 32 (covered 0 payment_tx))
      (sign_transaction toy stale 1000 header front later boot_device)
unfolding encode
sign_transaction-Asks_example =
    sign_transaction-Asks toy toy-IsSdk toy_keys toy_keys-IsKeySdk stale header front later
      payment_tx 1000 boot_device refl (omega arith) (omega arith, tt) refl payment-IsTransaction
      refl (omega arith) (omega arith)
