-- ===== src/Calc/Dialog.antt =====
-- A session of the calcTxnHash command (src/calcTxnHash.c) in which the computer sends a whole
-- transaction, the next packet whenever it gets SW_OK, and the user presses on through all that is
-- shown, up to the question whether to sign.
pub mod Formats
pub mod Looks
pub mod Presses
pub mod Signs
use app_sia_x.Base.{
  ℕ, zero, suc, ◌+◌, ◌-◌, ◌*◌, ◌^◌, ◌≤◌, ◌<◌, ◌≡◌, ◌≢◌, ◌==◌, if◌then◌else◌, refl, sym, ap, ◌∙◌,
  arith, inl, inr, Bool, true, false, Bool-cases, not, ltb, ◌&&◌, List, [], ◌∷◌, ◌++◌, Bytes,
  length, length-append, length-write, write, bit_and, ◌/◌, take, drop, take-append_self,
  drop-append_self, u8, u16, All, Option, none, some, Result, ok, throw, stuck, continue, modify,
  ◌>>=◌,
}
use mathlib.Core.Path.{subst}
use app_sia_x.Sdk.{Sdk, IsSdk}
use app_sia_x.Codes.{TxnDecoderState, ready, partial, finished, sw_improper_init, sw_ok}
use app_sia_x.Blake2b.{blake2b}
use app_sia_x.Keys.{KeySdk, IsKeySdk, derive_and_sign}
use app_sia_x.Txn.State.{ElemType, sc_output, sf_output, miner_fee, TxnState}
use app_sia_x.Txn.Decode.{txn_init, txn_update, txn_next_elem}
use app_sia_x.Txn.Encoding.{Display, Transaction, IsTransaction, encode, covered, approvals}
use app_sia_x.Txn.Encoding.Stage.{IsShown, Stage, Stands, stands, Waits, waits, Presents}
use app_sia_x.Txn.Encoding.Decoding.{Decodes, presents, asks, ends, txn_next_elem-Decodes}
use app_sia_x.Txn.Advance.{IsValid, txn_init-IsValid}
use app_sia_x.Txn.Honest.{concat, work, AreShort, after_update, no_more, txn_init-Waits}
use app_sia_x.Device.{
  Screen, menu_main, menu_about, show_txn_elem, compare_hash, sign_txn, approve_pk, compare_pk,
  approve_hash, Device, show_flow, reply_later, io_exchange_with_code,
}
use app_sia_x.Device.Replies.{word_bytes}
use app_sia_x.Calc.Format.{
  label_elem, fmt_address, fmt_siacoins, fmt_siafunds, fmt_elem, fmt_txn_elem,
}
use app_sia_x.Calc.Approval.{touch_txn_hash_ok-sends}
use app_sia_x.Calc.Handler.{
  p1_first, p1_more, with_txn, set_elem_part, name_key, number_key, send_hash, touch_txn_hash_ok,
  end_session, on_state_button, on_state, update_txn, next_elem, elem_button, begin_session,
  feed_txn, first_packet, more_packet, handle_calc_txn_hash,
}

-- The last response that was sent.
abbrev pub newest : List Bytes → Bytes
newest [] = []
newest (x ∷ []) = x
newest (x ∷ y ∷ xs) = newest (y ∷ xs)

-- The two bytes of SW_OK and nothing else.
abbrev pub is_sw_ok : Bytes → Bool
is_sw_ok (high ∷ low ∷ []) = (high == 0x90) && (low == 0x00)
is_sw_ok _ = false

module _ {C : Type 0} where
  -- What happens on the response of a handler: the next packet on SW_OK, and otherwise a look at the
  -- screen.
  abbrev pub answered :
      (look next : Device C → Option (Device C))
      → Result ℕ (Unit {0}) × Device C
      → Option (Device C)
  answered look next (ok _, d) = look d
  answered look next (throw w, d) = if w == sw_ok then next d else none
  answered look next (stuck, d) = none

module _ {C : Type 0} (sdk : Sdk C) (junk : Bytes) where
  -- The APDU buffer holds `junk` behind the packet.
  abbrev pub send :
      (List Bytes → Device C → Option (Device C)) → List Bytes → Device C → Option (Device C)
  send look [] d = none
  send look (p ∷ packets) d =
      answered (look packets) (send look packets)
        (handle_calc_txn_hash sdk p1_more 1 (p ++ junk) (length p) d)

  -- Behind a press the computer may have been sent a response.
  abbrev pub pressed :
      (List Bytes → Device C → Option (Device C))
      → List Bytes
      → Device C
      → Result ℕ (Unit {0}) × Device C
      → Option (Device C)
  pressed look packets d (r, d') =
      if length d'.sent == length d.sent
      then look packets d'
      else if is_sw_ok (newest d'.sent)
      then send look packets d'
      else none

  abbrev pub watch :
      (List Bytes → Device C → Option (Device C))
      → List Bytes
      → Screen
      → Device C
      → Option (Device C)
  watch look packets sign_txn d = some d
  watch look packets show_txn_elem d = pressed look packets d (elem_button sdk d)
  watch look packets menu_main d = none
  watch look packets menu_about d = none
  watch look packets compare_hash d = none
  watch look packets approve_pk d = none
  watch look packets compare_pk d = none
  watch look packets approve_hash d = none

  -- The user looks at the screen so many times.
  unfoldable pub attend : ℕ → List Bytes → Device C → Option (Device C)
  attend zero packets d = none
  attend (suc fuel) packets d = let look = attend fuel in watch look packets d.screen d

  -- The first packet has the key index and the signature index in front.
  unfoldable pub sign_transaction :
      ℕ → (header p : Bytes) → List Bytes → Device C → Option (Device C)
  sign_transaction fuel header p packets d =
      answered (attend fuel packets) (send (attend fuel) packets)
        (handle_calc_txn_hash sdk p1_first 1 (header ++ (p ++ junk)) (6 + length p) d)

-- The question whether to sign is on the screen, and an approval sends the signature of the hash.
pub record Asks {C K : Type 0} (keys : KeySdk K) (key : ℕ) (hash : Bytes) (r : Option (Device C))
    : Type 0 where
  pub device : Device C
  pub returns : r ≡ some device
  pub question : device.screen ≡ sign_txn
  pub reply :
      (touch_txn_hash_ok keys device).sent
      ≡ device.sent ++ (derive_and_sign keys key hash ++ word_bytes sw_ok) ∷ []
