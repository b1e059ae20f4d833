-- ===== src/Examples/Session.antt =====
-- A whole transaction for the decoder and the calcTxnHash command (src/txn.c, src/calcTxnHash.c).
use app_sia_x.Base.{
  ℕ, ◌-◌, ◌≡◌, ◌≢◌, refl, arith, true, false, [], ◌∷◌, ◌++◌, Bytes, ok, replicate, take, drop, All,
  IsByte,
}
use app_sia_x.Codes.{finished, u8_le}
use app_sia_x.Blake2b.{blake2b_init, blake2b_update, blake2b_final}
use app_sia_x.Bin2Dec.{bin2dec, dec_len, store_digits}
use app_sia_x.Txn.State.{bump, TxnState}
use app_sia_x.Txn.Read.{
  need_at_least, seek, read_int, read_hash, read_prefixed_bytes, read_empty_fields,
  read_covered_fields,
}
use app_sia_x.Txn.Decode.{
  catch_state, absorb, advance, store_hash, finish_txn, enter_slice, sig_missing, begin_slice,
  next_slice, next_slices, end_elem, read_elem, switch_elem, decode_elem, decode_elems, txn_init,
  txn_update, txn_next_elem,
}
use app_sia_x.Txn.Transcript.{Finished}
use app_sia_x.Txn.SigHash.{started, update, sig_hash_lem}
use app_sia_x.Device.{Device, sign_txn, show_flow, reply_later}
use app_sia_x.Calc.Handler.{
  p1_first, p1_more, handle_calc_txn_hash, more_packet, first_packet, feed_txn, update_txn,
  next_elem, on_state, end_session, name_key, number_key, begin_session,
}
use app_sia_x.Calc.Approval.{Signs}
use app_sia_x.Calc.Signing.{more, Turn-Signs, first_packet-Signs}
use app_sia_x.Examples.Toy.{toy, toy-IsSdk}
use app_sia_x.Examples.Command.{toy_keys, boot_device}
use app_sia_x.Examples.App.{toy_keys-IsKeySdk}

-- Nothing but one signature, which covers the whole transaction and is empty.
abbrev pub whole : Bytes
whole =
    replicate 72 0
    ++ (1 ∷ replicate 7 0)
    ++ replicate 48 0xcd
    ++ (1 ∷ replicate 80 0)
    ++ replicate 8 0

abbrev loaded : TxnState Bytes
loaded = (txn_update whole (txn_init toy 0)).1

whole-IsByte : All IsByte whole
whole-IsByte = omega arith

loaded_finishes : (txn_next_elem toy {E = ℕ} loaded).0 ≡ ok finished
unfolding u8_le blake2b_init blake2b_update blake2b_final bump need_at_least seek read_int read_hash
    read_prefixed_bytes read_empty_fields read_covered_fields catch_state absorb advance store_hash
    finish_txn enter_slice sig_missing begin_slice next_slice next_slices end_elem read_elem
    switch_elem decode_elem decode_elems txn_init txn_update txn_next_elem
loaded_finishes = refl

sig_hash_lem_example : Finished toy 0 whole (txn_next_elem toy {E = ℕ} loaded).1
unfolding txn_init
sig_hash_lem_example =
    sig_hash_lem toy toy-IsSdk 0 whole loaded (update whole whole-IsByte (omega arith) started)
      loaded_finishes

-- A signing session that has begun, and the packet with the transaction.
abbrev begun : Device Bytes
begun = record boot_device {
  ctx = record boot_device.ctx { txn = txn_init toy 0; sign = true; initialized = true };
}

abbrev asked : Device Bytes
asked = (handle_calc_txn_hash toy p1_more 1 whole 217 begun).1

not_asked_yet : begun.screen ≢ sign_txn
not_asked_yet e = cc

asked_to_sign : asked.screen ≡ sign_txn
unfolding u8_le blake2b_init blake2b_update blake2b_final bump need_at_least seek read_int read_hash
    read_prefixed_bytes read_empty_fields read_covered_fields catch_state absorb advance store_hash
    finish_txn enter_slice sig_missing begin_slice next_slice next_slices end_elem read_elem
    switch_elem decode_elem decode_elems txn_init txn_update txn_next_elem handle_calc_txn_hash
    more_packet feed_txn update_txn next_elem on_state end_session name_key number_key show_flow
    reply_later bin2dec dec_len store_digits
asked_to_sign = refl

Turn-Signs_example :
    Signs toy toy-IsSdk toy_keys toy_keys-IsKeySdk 0 begun.ctx.key_index
      ([] ++ take 217 whole)
      asked
Turn-Signs_example =
    Turn-Signs toy toy-IsSdk toy_keys toy_keys-IsKeySdk 0 begun asked false []
      ([] ++ take 217 whole) started (omega arith) not_asked_yet
      (more 1 whole 217 (omega arith) (omega arith)) asked_to_sign

-- The same in one packet, for key 0 and signature 0.
abbrev first : Bytes
first = replicate 6 0 ++ whole

abbrev asked_at_once : Device Bytes
asked_at_once = (handle_calc_txn_hash toy p1_first 1 first 223 boot_device).1

asked_to_sign_at_once : asked_at_once.screen ≡ sign_txn
unfolding u8_le blake2b_init blake2b_update blake2b_final bump need_at_least seek read_int read_hash
    read_prefixed_bytes read_empty_fields read_covered_fields catch_state absorb advance store_hash
    finish_txn enter_slice sig_missing begin_slice next_slice next_slices end_elem read_elem
    switch_elem decode_elem decode_elems txn_init txn_update txn_next_elem handle_calc_txn_hash
    first_packet begin_session feed_txn update_txn next_elem on_state end_session name_key
    number_key show_flow reply_later bin2dec dec_len store_digits
asked_to_sign_at_once = refl

nothing_asked : boot_device.screen ≢ sign_txn
nothing_asked e = cc

first_packet-Signs_example :
    Signs toy toy-IsSdk toy_keys toy_keys-IsKeySdk
      (toy.u2_le (drop 4 first) 0)
      (toy.u4_le first 0)
      (take (223 - 6) (drop 6 first))
      asked_at_once
first_packet-Signs_example =
    first_packet-Signs toy toy-IsSdk toy_keys toy_keys-IsKeySdk 1 first 223 boot_device
      (omega arith) (omega arith) (omega arith) (omega arith) nothing_asked asked_to_sign_at_once
