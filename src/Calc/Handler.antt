-- ===== src/Calc/Handler.antt =====
-- The handler and the buttons of the calcTxnHash command (src/calcTxnHash.c).
use app_sia_x.Base.{
  ℕ, ◌+◌, ◌-◌, ◌^◌, Bool, true, false, not, ◌&&◌, ◌||◌, [], ◌∷◌, ◌++◌, Bytes, ltb, ◌==◌,
  if◌then◌else◌, bit_and, u8, u16, codes, take, drop, write, Action, Result, pure, raise, modify,
  ◌>>=◌, ◌>>◌,
}
use app_sia_x.Sdk.{Sdk}
use app_sia_x.Codes.{
  TxnDecoderState, err, partial, ready, finished, sw_invalid_param, sw_improper_init, sw_ok,
}
use app_sia_x.Bin2Dec.{bin2dec}
use app_sia_x.Bin2Hex.{bin2hex}
use app_sia_x.Txn.State.{TxnState}
use app_sia_x.Txn.Decode.{txn_init, txn_update, txn_next_elem}
use app_sia_x.Device.{
  Device, io_exchange_with_code, show_flow, ui_idle, reply_later, show_txn_elem, compare_hash,
  sign_txn,
}
use app_sia_x.Keys.{KeySdk, derive_and_sign}
use app_sia_x.Calc.Format.{fmt_txn_elem}

abbrev pub p1_first : ℕ
p1_first = 0x00

abbrev pub p1_more : ℕ
p1_more = 0x80

abbrev pub p2_display_hash : ℕ
p2_display_hash = 0x00

abbrev pub p2_sign_hash : ℕ
p2_sign_hash = 0x01

abbrev pub is_packet : ℕ → ℕ → Bool
is_packet p1 p2 =
    ((p1 == p1_first) || (p1 == p1_more)) && ((p2 == p2_display_hash) || (p2 == p2_sign_hash))

-- A command's function, which may THROW a status word.
abbrev pub Command : Type 0 → Type 0 → Type 0
Command C A = Action (Device C) ℕ A

-- A call on `&ctx->txn`.
abbrev pub with_txn : {C A : Type 0} → Device C → Result ℕ A × TxnState C → Result ℕ A × Device C
with_txn d (r, txn) = (r, record d { ctx = record d.ctx { txn = txn } })

module _ {C : Type 0} where
  unfoldable pub set_elem_part : Device C → Device C
  set_elem_part d = record d { ctx = record d.ctx { elem_part = 0 } }

  -- "with key #N?" in `fullStr`
  unfoldable pub name_key : Device C → Device C
  name_key d =
      let words = write d.ctx.full_str 0 (codes "with key #") in
      let (numbered, n) = bin2dec words 10 d.ctx.key_index in
      record d { ctx = record d.ctx { full_str = write numbered (10 + n) (codes "?" ++ 0 ∷ []) } }

  -- The handler converts the number once more beforehand.
  unfoldable pub number_key : Device C → Device C
  number_key d =
      let words = write d.ctx.full_str 0 (codes "with key #") in
      record d { ctx = record d.ctx { full_str = (bin2dec words 10 d.ctx.key_index).0 } }

  -- The hash to the computer, and its text to the screen.
  unfoldable pub send_hash : Device C → Device C
  send_hash d =
      let d' =
        io_exchange_with_code sw_ok 32
          (record d { apdu = write d.apdu 0 (take 32 d.ctx.txn.sig_hash) }) in
      show_flow compare_hash (record d' {
        ctx = record d'.ctx { full_str = bin2hex d'.ctx.full_str 0 d'.ctx.txn.sig_hash 32 };
      })

  -- `io_seproxyhal_touch_txn_hash_ok`
  unfoldable pub touch_txn_hash_ok : {K : Type 0} → KeySdk K → Device C → Device C
  touch_txn_hash_ok keys d =
      let signature = derive_and_sign keys d.ctx.key_index d.ctx.txn.sig_hash in
      ui_idle (io_exchange_with_code sw_ok 64 (record d { apdu = write d.apdu 0 signature }))

  unfoldable pub end_session : Device C → Device C
  end_session d = record d { ctx = record d.ctx { initialized = false } }

  -- What `ui_calcTxnHash_elem_button` does on each decoder state.
  unfoldable pub on_state_button : TxnDecoderState → Device C → Device C
  on_state_button err d = ui_idle (io_exchange_with_code sw_invalid_param 0 d)
  on_state_button partial d = io_exchange_with_code sw_ok 0 d
  on_state_button ready d = show_flow show_txn_elem (fmt_txn_elem (set_elem_part d))
  on_state_button finished d =
      end_session (if d.ctx.sign then show_flow sign_txn (name_key d) else send_hash d)

  -- What `handleCalcTxnHash` does on each.
  unfoldable pub on_state : TxnDecoderState → Command C (Unit {0})
  on_state err = raise sw_invalid_param
  on_state partial = raise sw_ok
  on_state ready =
      modify (λ d. reply_later (show_flow show_txn_elem (fmt_txn_elem (set_elem_part d))))
  on_state finished = modify (λ d. end_session (
      if d.ctx.sign
      then reply_later (show_flow sign_txn (name_key (number_key d)))
      else send_hash d))

  -- `txn_update(&ctx->txn, dataBuffer, dataLength)`, whose `inlen` is a `uint8_t`. `buf` holds the
  -- APDU buffer from `dataBuffer` on, the stale bytes behind the packet included.
  unfoldable pub update_txn : Bytes → ℕ → Command C (Unit {0})
  update_txn buf len d = with_txn d (txn_update (take (u8 len) buf) d.ctx.txn)

module _ {C : Type 0} (sdk : Sdk C) where
  unfoldable pub next_elem : Command C TxnDecoderState
  next_elem d = with_txn d (txn_next_elem sdk d.ctx.txn)

  -- `ui_calcTxnHash_elem_button`
  unfoldable pub elem_button : Command C (Unit {0})
  elem_button d =
      if ltb 0 d.ctx.elem_part
      then pure tt (show_flow show_txn_elem (fmt_txn_elem d))
      else (do s ← next_elem; modify (on_state_button s)) d

  -- What the first packet sets up.
  unfoldable pub begin_session : ℕ → Bytes → Device C → Device C
  begin_session p2 buf d = record d {
    ctx = record d.ctx {
      initialized = true;
      key_index = sdk.u4_le buf 0;
      txn = txn_init sdk (sdk.u2_le (drop 4 buf) 0);
      sign = not (bit_and p2 p2_sign_hash == 0);
      elem_part = 0;
    };
  }

  -- Everything behind the tests on `p1`: the rest of the packet, and the next element.
  unfoldable pub feed_txn : Bytes → ℕ → Command C (Unit {0})
  feed_txn buf len = do update_txn buf len; s ← next_elem; on_state s

  unfoldable pub first_packet : ℕ → Bytes → ℕ → Command C (Unit {0})
  first_packet p2 buf len d =
      if d.ctx.initialized
      then raise sw_improper_init d
      else feed_txn (drop 6 buf) (u16 (len + 2 ^ 16 - 6)) (begin_session p2 buf d)

  unfoldable pub more_packet : Bytes → ℕ → Command C (Unit {0})
  more_packet buf len d =
      if not d.ctx.initialized then raise sw_improper_init d else feed_txn buf len d

  unfoldable pub handle_calc_txn_hash : ℕ → ℕ → Bytes → ℕ → Command C (Unit {0})
  handle_calc_txn_hash p1 p2 buf len d =
      if not (is_packet p1 p2)
      then raise sw_invalid_param d
      else if p1 == p1_first
      then first_packet p2 buf len d
      else more_packet buf len d
