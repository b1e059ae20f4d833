-- ===== src/Txn/Decode.antt =====
-- The decoding loop of src/txn.c, and the functions that its callers use.
use app_sia_x.Base.{
  ℕ, zero, suc, ◌+◌, ◌-◌, ◌^◌, Bool, true, false, not, ◌&&◌, [], ◌∷◌, ◌++◌, Bytes, ltb, leb, ◌==◌,
  if◌then◌else◌, u16, codes, take, drop, replicate, length, write, Action, Result, ok, throw, stuck,
  pure, raise, raise_if, gets, modify, ◌>>=◌, ◌>>◌,
}
use app_sia_x.Sdk.{Sdk}
use app_sia_x.Codes.{TxnDecoderState, err, ready, finished, sw_developer_err}
use app_sia_x.Blake2b.{blake2b_init, blake2b_update, blake2b_final}
use app_sia_x.Txn.State.{
  ElemType, unset, sc_input, sc_output, fc, fcr, sp, sf_input, sf_output, miner_fee, arb_data,
  txn_sig, beyond, bump, is_txn_sig, TxnState, buf_size, TxnAction,
}
use app_sia_x.Txn.Read.{
  read_int, read_currency, read_hash, read_prefixed_bytes, read_unlock_conditions,
  read_covered_fields, add_replay_protection,
}

-- `CATCH_OTHER(e) { result = e; }`, and the test behind it. The loop ends by a throw alone.
unfoldable pub catch_state :
    {E : Type 0} → Result TxnDecoderState (Unit {0}) → ℕ → Result E TxnDecoderState
catch_state (ok _) buflen = stuck
catch_state stuck buflen = stuck
catch_state (throw e) buflen = if ltb buf_size (buflen + 255) then ok err else ok e

module _ {C : Type 0} (sdk : Sdk C) where
  -- The hash context after `advance`.
  unfoldable pub absorb : TxnState C → C
  absorb txn =
      if not (is_txn_sig txn.elem_type)
      then blake2b_update sdk txn.blake (take txn.pos txn.buf)
      else if txn.slice_index == txn.sig_index && leb 48 txn.pos
      then blake2b_update sdk txn.blake (take 48 txn.buf)
      else txn.blake

  -- `memmove(buf, buf+pos, buflen)` with the new `buflen`.
  unfoldable pub advance : TxnState C → TxnState C
  advance txn =
      let buflen = u16 (txn.buflen + 2 ^ 16 - txn.pos) in
      record txn {
        blake = absorb txn;
        buflen = buflen;
        buf = write txn.buf 0 (take buflen (drop txn.pos txn.buf));
        pos = 0;
      }

  -- `blake2b_final(&txn->blake, txn->sigHash, sizeof(txn->sigHash))`
  unfoldable pub store_hash : TxnState C → TxnState C
  store_hash txn =
      let (blake, digest) = blake2b_final sdk txn.blake 32 in
      record txn { blake = blake; sig_hash = write txn.sig_hash 0 digest }

  unfoldable pub finish_txn : TxnAction C (Unit {0})
  finish_txn = do modify store_hash; raise finished

  -- `txn->sliceLen = len; txn->sliceIndex = 0; txn->elemType++; advance(txn);`
  unfoldable pub enter_slice : ℕ → TxnState C → TxnState C
  enter_slice len txn =
      advance (record txn { slice_len = len; slice_index = 0; elem_type = bump txn.elem_type })

  -- `(txn->elemType == TXN_ELEM_TXN_SIG) && (txn->sigIndex >= txn->sliceLen)`
  unfoldable pub sig_missing : TxnState C → Bool
  sig_missing txn = is_txn_sig txn.elem_type && leb txn.slice_len txn.sig_index

  unfoldable pub begin_slice : ℕ → TxnAction C (Unit {0})
  begin_slice len = do modify (enter_slice len); missing ← gets sig_missing; raise_if missing err

  -- One round of the loop at a slice boundary.
  unfoldable pub next_slice : TxnAction C (Unit {0})
  next_slice txn =
      if is_txn_sig txn.elem_type then finish_txn txn else (read_int sdk >>= begin_slice) txn

  -- `while (txn->sliceIndex == txn->sliceLen) { … }`
  unfoldable pub next_slices : ℕ → TxnAction C (Unit {0})
  next_slices zero txn = (stuck, txn)
  next_slices (suc fuel) txn =
      let rest = next_slices fuel in
      if txn.slice_index == txn.slice_len then (next_slice >> rest) txn else pure tt txn

  -- `advance(txn); txn->sliceIndex++;`
  unfoldable pub end_elem : TxnState C → TxnState C
  end_elem txn = let txn' = advance txn in record txn' { slice_index = u16 (txn'.slice_index + 1) }

  -- `memmove(txn->outAddr, "[Miner Fee]", 12)`
  unfoldable pub label_fee : TxnState C → TxnState C
  label_fee txn = record txn { out_addr = write txn.out_addr 0 (codes "[Miner Fee]" ++ 0 ∷ []) }

  -- `if (txn->sliceLen != 0) THROW(TXN_STATE_ERR);`
  unfoldable pub check_absent : TxnAction C (Unit {0})
  check_absent txn = raise_if (not (txn.slice_len == 0)) err txn

  -- The `switch` on the element type.
  unfoldable pub read_elem : ElemType → TxnAction C (Unit {0})
  read_elem sc_output = do read_currency sdk true; read_hash sdk true; modify end_elem; raise ready
  read_elem sf_output = do
    read_currency sdk true
    read_hash sdk true
    read_currency sdk false
    modify end_elem
    raise ready
  read_elem miner_fee = do read_currency sdk true; modify label_fee; modify end_elem; raise ready
  read_elem sc_input = do
    read_hash sdk false
    read_unlock_conditions sdk
    modify (add_replay_protection sdk)
    modify end_elem
  read_elem sf_input = do
    read_hash sdk false
    read_unlock_conditions sdk
    read_hash sdk false
    modify (add_replay_protection sdk)
    modify end_elem
  read_elem txn_sig = do
    read_hash sdk false
    read_int sdk
    read_int sdk
    read_covered_fields sdk
    read_prefixed_bytes sdk
    modify end_elem
  read_elem fc = check_absent
  read_elem fcr = check_absent
  read_elem sp = check_absent
  read_elem arb_data = check_absent
  read_elem unset = pure tt
  read_elem beyond = pure tt

  unfoldable pub switch_elem : TxnAction C (Unit {0})
  switch_elem txn = read_elem txn.elem_type txn

  -- `__txn_next_elem`. Each round of its loop takes eight bytes or throws, so `buflen + 1` rounds
  -- are enough.
  unfoldable pub decode_elem : TxnAction C (Unit {0})
  decode_elem txn = (next_slices (txn.buflen + 1) >> switch_elem) txn

  -- `for (;;) { __txn_next_elem(txn); }`
  unfoldable pub decode_elems : ℕ → TxnAction C (Unit {0})
  decode_elems zero txn = (stuck, txn)
  decode_elems (suc fuel) txn = let rest = decode_elems fuel in (decode_elem >> rest) txn

  -- `txn_next_elem`. Each normal return of `__txn_next_elem` takes a byte at least.
  unfoldable pub txn_next_elem : {E : Type 0} → Action (TxnState C) E TxnDecoderState
  txn_next_elem txn =
      let (result, txn') = decode_elems (txn.buflen + 1) txn in
      (catch_state result txn'.buflen, txn')

  -- `txn_init`: `memset` of the whole structure, and the fields that differ.
  unfoldable pub txn_init : ℕ → TxnState C
  txn_init sig_index = record {
    buf = replicate buf_size 0;
    buflen = 0;
    pos = 0;
    elem_type = unset;
    slice_len = 0;
    slice_index = 0;
    sig_index = sig_index;
    blake = blake2b_init sdk;
    sig_hash = replicate 32 0;
    out_val = replicate 128 0;
    val_len = 0;
    out_addr = replicate 77 0;
  }

module _ {C : Type 0} where
  -- `txn_update`, where `bin` holds the `inlen` bytes of the packet.
  unfoldable pub txn_update : Bytes → Action (TxnState C) ℕ (Unit {0})
  txn_update bin txn =
      if ltb buf_size (txn.buflen + length bin) then (throw sw_developer_err, txn) else (
        ok tt,
        record txn {
          buf = write txn.buf txn.buflen bin;
          buflen = u16 (txn.buflen + length bin);
          pos = 0;
        },
      )
