-- ===== src/Calc/Dialog/Signs.antt =====
-- The whole session of a calcTxnHash command that is to sign (src/calcTxnHash.c).
use app_sia_x.Base.{
  ℕ, ◌+◌, ◌-◌, ◌*◌, ◌^◌, ◌≤◌, ◌<◌, ◌≡◌, if◌then◌else◌, refl, sym, ap, ◌∙◌, arith, false, List, ◌++◌,
  Bytes, length, length-append, take, drop, take-append_self, drop-append_self, u8, u16, All, ok,
  throw, continue, ◌>>=◌,
}
use mathlib.Core.Path.{subst}
use app_sia_x.Sdk.{Sdk, IsSdk}
use app_sia_x.Codes.{sw_improper_init}
use app_sia_x.Blake2b.{blake2b}
use app_sia_x.Keys.{KeySdk, IsKeySdk}
use app_sia_x.Txn.State.{TxnState}
use app_sia_x.Txn.Decode.{txn_init, txn_update, txn_next_elem}
use app_sia_x.Txn.Encoding.{Transaction, IsTransaction, encode, covered, approvals}
use app_sia_x.Txn.Encoding.Decoding.{txn_next_elem-Decodes}
use app_sia_x.Txn.Honest.{concat, work, after_update, txn_init-Waits}
use app_sia_x.Device.{Device}
use app_sia_x.Calc.Handler.{
  p1_first, with_txn, on_state, update_txn, next_elem, begin_session, feed_txn, first_packet,
  handle_calc_txn_hash,
}
use app_sia_x.Calc.Dialog.{answered, send, attend, sign_transaction, Asks}
use app_sia_x.Calc.Dialog.Formats.{IsSigning}
use app_sia_x.Calc.Dialog.Looks.{Signed, advanced, settled, Stands-IsValid, send-Signed}
use app_sia_x.Calc.Dialog.Presses.{attend-GoesOn}

module _ {C K : Type 0} (sdk : Sdk C) (laws : IsSdk sdk) (keys : KeySdk K) (signs : IsKeySdk keys)
    (junk : Bytes) where
  no_bytes : (sig_index : ℕ) → (txn_init sdk sig_index).buflen ≡ 0
  unfolding txn_init
  no_bytes sig_index = refl

  -- The first packet.
  opening :
      (header p : Bytes) (d : Device C) (t : TxnState C)
      → length header ≡ 6
      → length p ≤ 249
      → d.ctx.initialized ≡ false
      → let buf = header ++ (p ++ junk) in
        let d' = begin_session sdk 1 buf d in
        txn_update p (txn_init sdk (sdk.u2_le (drop 4 buf) 0)) ≡ (ok tt, t)
        → handle_calc_txn_hash sdk p1_first 1 buf (6 + length p) d
          ≡ continue on_state
              (with_txn (record d' { ctx = record d'.ctx { txn = t } }) (txn_next_elem sdk t))
  unfolding handle_calc_txn_hash first_packet feed_txn update_txn next_elem begin_session
  opening header p d t size short idle e =
      let buf = header ++ (p ++ junk) in
      let len = u16 (6 + length p + 2 ^ 16 - 6) in
      let d' = begin_session sdk 1 buf d in
      let rest : drop 6 buf ≡ p ++ junk =
        ap (λ n. drop n buf) (sym size) ∙ drop-append_self header (p ++ junk) in
      let front : take (u8 len) (drop 6 buf) ≡ p =
        ap (take (u8 len)) rest
        ∙ ap (λ n. take n (p ++ junk)) (omega arith)
        ∙ take-append_self p junk in
      let begun : handle_calc_txn_hash sdk p1_first 1 buf (6 + length p) d
          ≡ feed_txn sdk (drop 6 buf) len d' =
        ap (λ b. if b then (throw sw_improper_init, d) else feed_txn sdk (drop 6 buf) len d')
          idle in
      begun
      ∙ ap (λ b. continue (λ _. next_elem sdk >>= on_state) (with_txn d' (txn_update b d'.ctx.txn)))
          front
      ∙ ap (λ r. continue (λ _. next_elem sdk >>= on_state) (with_txn d' r)) e

  -- If the SDK behaves as documented, the APDU buffer has 66 bytes at least and no session is open:
  -- a computer sends the encoding of a transaction that the app can take, cut anywhere into a first
  -- packet of at most 255 bytes with the six bytes of the key index and the signature index in front,
  -- and further packets of at most 255 bytes, one whenever it gets SW_OK, and the user presses on
  -- through all that is shown. Then, if more looks may be taken at the screen than twice the number
  -- of further packets, of the encoding's bytes and of one more, the question whether to sign comes
  -- up, and an approval sends SW_OK and the signature, by the key that the first packet names, of the
  -- BLAKE2b hash of the bytes that the signature of that index covers. The transaction has a
  -- signature at the index. What stands in the APDU buffer behind the packets does not matter.
  pub sign_transaction-Asks :
      (header p : Bytes) (packets : List Bytes) (tx : Transaction) (fuel : ℕ) (d : Device C)
      → let buf = header ++ (p ++ junk) in
        let sig_index = sdk.u2_le (drop 4 buf) 0 in
        length header ≡ 6
        → length p ≤ 249
        → All (λ q. length q ≤ 255) packets
        → p ++ concat packets ≡ encode tx
        → IsTransaction sig_index tx
        → d.ctx.initialized ≡ false
        → 66 ≤ length d.apdu
        → 2 * (length packets + length (encode tx) + 1) < fuel
        → Asks keys
            (sdk.u4_le buf 0)
            (blake2b sdk 32 (covered sig_index tx))
            (sign_transaction sdk junk fuel header p packets d)
  unfolding sign_transaction begin_session
  sign_transaction-Asks header p packets tx fuel d size small short joined h idle room enough =
      let buf = header ++ (p ++ junk) in
      let sig_index = sdk.u2_le (drop 4 buf) 0 in
      let key = sdk.u4_le buf 0 in
      let all = covered sig_index tx in
      let start = txn_init-Waits sdk laws sig_index tx (p ++ concat packets) h joined in
      let (t, run, count, there) =
        after_update sdk laws sig_index all (approvals tx) 0 p (concat packets)
          (txn_init sdk sig_index) (omega arith) start in
      let look = attend sdk junk fuel in
      let d' = begin_session sdk 1 buf d in
      let begun = record d' { ctx = record d'.ctx { txn = t } } in
      let signing : IsSigning key begun = record {
        initialized = refl;
        sign = refl;
        key_index = refl;
        room = room;
      } in
      let go = attend-GoesOn sdk laws keys signs junk sig_index key all fuel in
      let fits : t.buflen + work packets ≤ length packets + length (encode tx) = omega (
        arith,
        count,
        no_bytes sig_index,
        length-append p (concat packets),
        ap (length {A = ℕ}) joined,
      ) in
      subst
        (λ r.
          Signed sdk laws keys signs junk sig_index key all
            (answered (look packets) (send sdk junk look packets) r))
        (sym (opening header p d t size small idle run))
        (settled sdk laws keys signs junk sig_index key all fuel packets
          (send sdk junk look packets) begun t (approvals tx) (txn_next_elem sdk t) go short
          (omega arith) signing
          (λ u w.
            send-Signed sdk laws keys signs junk sig_index key all fuel packets t.buflen
              (record begun { ctx = record begun.ctx { txn = u } }) (approvals tx) go short
              (omega arith) (advanced sdk laws keys signs junk sig_index key all begun u signing) w)
          (txn_next_elem-Decodes sdk laws sig_index all (concat packets) (approvals tx) t
            (Stands-IsValid sdk laws keys signs junk sig_index key all (approvals tx) t.buflen
              (concat packets) t there)
            there))
