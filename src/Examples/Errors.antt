-- ===== src/Examples/Errors.antt =====
-- What the decoder (src/txn.c) does after an error or in the middle of an element.
use app_sia_x.Base.{ℕ, ◌≡◌, refl, [], ◌∷◌, ◌++◌, Bytes, ok, replicate}
use app_sia_x.Codes.{err, partial, finished, u8_be, u8_le}
use app_sia_x.Blake2b.{blake2b_init, blake2b_update, blake2b_final, blake2b}
use app_sia_x.Bin2Hex.{hex_digit, hex_loop, bin2hex}
use app_sia_x.Currency.DivWw.{adjust, div_ww10}
use app_sia_x.Currency.Limbs.{quorem10, cons_limb, normalize}
use app_sia_x.Currency.Cur2Dec.{load_limbs, decode_digits, cur2dec}
use app_sia_x.Txn.State.{bump, TxnState}
use app_sia_x.Txn.Read.{
  need_at_least, seek, read_int, show_value, read_currency, show_address, read_hash,
  read_prefixed_bytes, read_empty_fields, read_covered_fields,
}
use app_sia_x.Txn.Decode.{
  catch_state, absorb, advance, store_hash, finish_txn, enter_slice, sig_missing, begin_slice,
  next_slice, next_slices, end_elem, read_elem, switch_elem, decode_elem, decode_elems, txn_init,
  txn_update, txn_next_elem,
}
use app_sia_x.Examples.Toy.{toy}
use app_sia_x.Examples.Session.{whole}

-- The only signature has the index 0. The session wants the one with the index 1 and gets an error;
-- when the decoder is called once more it finishes.
abbrev wrong_index : TxnState Bytes
wrong_index = (txn_update whole (txn_init toy 1)).1

passes_missing_signature :
    let (r, t) = txn_next_elem toy {E = ℕ} wrong_index in
    (r ≡ ok err) × ((txn_next_elem toy {E = ℕ} t).0 ≡ ok finished)
unfolding u8_le blake2b_init blake2b_update blake2b_final bump need_at_least seek read_int read_hash
    read_prefixed_bytes read_empty_fields read_covered_fields catch_state absorb advance store_hash
    finish_txn enter_slice sig_missing begin_slice next_slice next_slices end_elem read_elem
    switch_elem decode_elem decode_elems txn_init txn_update txn_next_elem
passes_missing_signature = (refl, refl)

-- An output of one hasting.
abbrev output : Bytes
output = (1 ∷ replicate 7 0) ++ 1 ∷ replicate 32 0xab

-- An output whose address is still missing.
abbrev cut : TxnState Bytes
cut =
    (txn_update (replicate 8 0 ++ (2 ∷ replicate 7 0) ++ (1 ∷ replicate 7 0) ++ 1 ∷ [])
      (txn_init toy 0)).1

stops_inside : let (r, t) = txn_next_elem toy {E = ℕ} cut in (r ≡ ok partial) × (t.pos ≡ 9)
unfolding u8_be u8_le blake2b_init blake2b_update blake2b_final blake2b hex_digit hex_loop bin2hex
    adjust div_ww10 quorem10 cons_limb normalize load_limbs decode_digits cur2dec bump need_at_least
    seek read_int show_value read_currency show_address read_hash catch_state absorb advance
    enter_slice sig_missing begin_slice next_slice next_slices end_elem read_elem switch_elem
    decode_elem decode_elems txn_init txn_update txn_next_elem
stops_inside = (refl, refl)

-- The buffer of a session that was sent a packet while an output was on the screen.
abbrev crowded : TxnState Bytes
crowded =
    (txn_update (replicate 255 0)
      (txn_update (replicate 8 0 ++ (3 ∷ replicate 7 0) ++ output ++ replicate 50 0)
        (txn_init toy 0)).1).1

-- The output is taken, and an error is reported in place of showing it.
takes_unshown : let (r, t) = txn_next_elem toy {E = ℕ} crowded in (r ≡ ok err) × (t.slice_index ≡ 1)
unfolding u8_be u8_le blake2b_init blake2b_update blake2b_final blake2b hex_digit hex_loop bin2hex
    adjust div_ww10 quorem10 cons_limb normalize load_limbs decode_digits cur2dec bump need_at_least
    seek read_int show_value read_currency show_address read_hash catch_state absorb advance
    enter_slice sig_missing begin_slice next_slice next_slices end_elem read_elem switch_elem
    decode_elem decode_elems txn_init txn_update txn_next_elem
takes_unshown = (refl, refl)
