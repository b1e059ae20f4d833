-- ===== src/Txn/State.antt =====
-- `txn_state_t` and `txnElemType_e` of src/sia.h.
use app_sia_x.Base.{ℕ, Bool, true, false, Bytes, Action}
use app_sia_x.Codes.{TxnDecoderState}

-- `unset` is the initial -1, and `beyond` what an increment past the last enumerator gives.
pub data ElemType : Type 0 where
  unset sc_input sc_output fc fcr sp sf_input sf_output miner_fee arb_data txn_sig beyond : ElemType

-- `elemType++`
unfoldable pub bump : ElemType → ElemType
bump unset = sc_input
bump sc_input = sc_output
bump sc_output = fc
bump fc = fcr
bump fcr = sp
bump sp = sf_input
bump sf_input = sf_output
bump sf_output = miner_fee
bump miner_fee = arb_data
bump arb_data = txn_sig
bump txn_sig = beyond
bump beyond = beyond

-- `elemType == TXN_ELEM_TXN_SIG`
abbrev pub is_txn_sig : ElemType → Bool
is_txn_sig txn_sig = true
is_txn_sig _ = false

-- `C` is the type of hash contexts. `buf`, `sig_hash`, `out_val` and `out_addr` are the arrays with
-- all their bytes, the stale ones included.
pub record TxnState (C : Type 0) : Type 0 where
  pub buf : Bytes
  pub buflen : ℕ
  pub pos : ℕ
  pub elem_type : ElemType
  pub slice_len : ℕ
  pub slice_index : ℕ
  pub sig_index : ℕ
  pub blake : C
  pub sig_hash : Bytes
  pub out_val : Bytes
  pub val_len : ℕ
  pub out_addr : Bytes

-- `sizeof(txn->buf)`
abbrev pub buf_size : ℕ
buf_size = 510

-- A function of the decoder, which may throw a `txnDecoderState_e`.
abbrev pub TxnAction : Type 0 → Type 0 → Type 0
TxnAction C A = Action (TxnState C) TxnDecoderState A
