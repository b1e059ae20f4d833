-- ===== src/Examples/Decoder.antt =====
-- The transaction decoder (src/txn.c) at concrete inputs.
use app_sia_x.Base.{
  le_value, ℕ, ◌+◌, ◌≤◌, ◌<◌, ◌≡◌, ◌⊎◌, refl, arith, [], ◌∷◌, ◌++◌, Bytes, codes, ok, throw, length,
  take, drop, replicate,
}
use app_sia_x.Codes.{TxnDecoderState, err, partial, ready, sw_developer_err}
use app_sia_x.Txn.State.{TxnState, buf_size}
use app_sia_x.Codes.{u8_be, u8_le}
use app_sia_x.Blake2b.{blake2b_init, blake2b_update, blake2b_final, blake2b}
use app_sia_x.Bin2Hex.{hex_digit, hex_loop, bin2hex}
use app_sia_x.Currency.DivWw.{adjust, div_ww10}
use app_sia_x.Currency.Limbs.{quorem10, cons_limb, normalize}
use app_sia_x.Currency.Cur2Dec.{load_limbs, decode_digits, cur2dec}
use app_sia_x.Txn.State.{bump}
use app_sia_x.Txn.Read.{
  need_at_least, seek, read_int, show_value, read_currency, show_address, read_hash,
}
use app_sia_x.Txn.Decode.{
  catch_state, absorb, advance, enter_slice, sig_missing, begin_slice, next_slice, next_slices,
  end_elem, read_elem, switch_elem, decode_elem, decode_elems, txn_init, txn_update, txn_next_elem,
}
use app_sia_x.Txn.Advance.{
  IsValid, pending-advance, pending, txn_init-IsValid, txn_update_lem, pending-advance,
}
use app_sia_x.Txn.Slices.{Takes}
use app_sia_x.Base.{All, IsByte}
use app_sia_x.Txn.Readers.{IsSeekable}
use app_sia_x.Txn.ReadInt.{seek_lem, read_int_lem}
use app_sia_x.Txn.Progress.{decode_elem-Takes, txn_next_elem_returns}
use app_sia_x.Examples.Toy.{toy, toy-IsSdk}

-- No siacoin inputs, and one siacoin output of one hasting.
abbrev packet : Bytes
packet = replicate 8 0 ++ (1 ∷ replicate 7 0) ++ (1 ∷ replicate 7 0) ++ 1 ∷ replicate 32 0xab

abbrev start : TxnState Bytes
start = txn_init toy 0

txn_update_lem_example :
    let (r, t') = txn_update packet start in
    ((start.buflen + length packet ≤ buf_size)
      × (r ≡ ok tt)
      × (pending t' ≡ pending start ++ packet)
      × (t'.pos ≡ 0)
      × IsValid t')
    ⊎ ((buf_size < start.buflen + length packet) × (r ≡ throw sw_developer_err) × (t' ≡ start))
txn_update_lem_example = txn_update_lem packet start (txn_init-IsValid toy 0)

abbrev loaded : TxnState Bytes
loaded = (txn_update packet start).1

loaded-IsValid : IsValid loaded
unfolding txn_init txn_update
loaded-IsValid = record {
  cap = refl;
  fits = omega arith;
  seeked = omega arith;
  counted = (refl, refl);
}

loaded-bytes : All IsByte (take 8 (drop loaded.pos loaded.buf))
unfolding txn_init txn_update
loaded-bytes = omega arith

abbrev midway : TxnState Bytes
midway = record loaded { pos = 8 }

midway-IsSeekable : IsSeekable midway
unfolding txn_init txn_update
midway-IsSeekable = record { seeked = omega arith; fits = omega arith }

midway-cap : length midway.buf ≡ buf_size
unfolding txn_init txn_update
midway-cap = refl

decode_elem-Takes_example : Takes 1 loaded (decode_elem toy loaded)
decode_elem-Takes_example = decode_elem-Takes toy loaded loaded-IsValid

txn_next_elem_returns_example :
    let (r, t') = txn_next_elem toy {E = ℕ} loaded in
    (s : TxnDecoderState) × (r ≡ ok s) × ((buf_size < t'.buflen + 255 → s ≡ err) × IsValid t')
txn_next_elem_returns_example = txn_next_elem_returns toy loaded loaded-IsValid

seek_lem_example :
    ((loaded.pos + 300 ≤ loaded.buflen)
      × (seek 300 loaded ≡ (ok tt, record loaded { pos = loaded.pos + 300 })))
    ⊎ ((loaded.buflen < loaded.pos + 300) × (seek 300 loaded ≡ (throw partial, loaded)))
seek_lem_example = seek_lem 300 loaded loaded-IsValid

read_int_lem_example :
    ((loaded.pos + 8 ≤ loaded.buflen)
      × (read_int toy loaded ≡ (
        ok (le_value (take 8 (drop loaded.pos (pending loaded)))),
        record loaded { pos = loaded.pos + 8 },
      )))
    ⊎ ((loaded.buflen < loaded.pos + 8) × (read_int toy loaded ≡ (throw partial, loaded)))
read_int_lem_example = read_int_lem toy toy-IsSdk loaded loaded-IsValid loaded-bytes

pending-advance_example : pending (advance toy midway) ≡ drop 8 (pending midway)
pending-advance_example = pending-advance toy midway midway-IsSeekable midway-cap

-- The one output is shown: value "1", and nothing is left in the buffer.
shows_output :
    let (r, t) = txn_next_elem toy {E = ℕ} loaded in
    (r ≡ ok ready)
    × (take 2 t.out_val ≡ codes "1" ++ 0 ∷ [])
    × (take 4 t.out_addr ≡ codes "abab")
    × (t.buflen ≡ 0)
    × (t.slice_index ≡ 1)
unfolding u8_be u8_le blake2b_init blake2b_update blake2b_final blake2b hex_digit hex_loop bin2hex
    adjust div_ww10 quorem10 cons_limb normalize load_limbs decode_digits cur2dec bump need_at_least
    seek read_int show_value read_currency show_address read_hash catch_state absorb advance
    enter_slice sig_missing begin_slice next_slice next_slices end_elem read_elem switch_elem
    decode_elem decode_elems txn_init txn_update txn_next_elem
shows_output = (refl, refl, refl, refl, refl)
