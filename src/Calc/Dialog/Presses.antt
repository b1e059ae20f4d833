-- ===== src/Calc/Dialog/Presses.antt =====
-- The presses of the element button in the session (src/calcTxnHash.c): the user can always go on.
use app_sia_x.Base.{
  ℕ, zero, suc, ◌+◌, ◌*◌, ◌^◌, ◌≤◌, ◌<◌, ◌≡◌, ◌==◌, if◌then◌else◌, refl, sym, ap, ◌∙◌, arith, inl,
  inr, true, false, Bool-cases, ltb, List, [], ◌∷◌, Bytes, length, length-append, length-write,
  write, bit_and, ◌/◌, take, u8, write-nil, ◌++◌, Option, none, Result, ok, continue, modify, ◌>>=◌,
}
use mathlib.Core.Path.{subst}
use app_sia_x.Sdk.{Sdk, IsSdk}
use app_sia_x.Codes.{TxnDecoderState, sw_ok}
use app_sia_x.Keys.{KeySdk, IsKeySdk}
use app_sia_x.Txn.State.{TxnState}
use app_sia_x.Txn.Decode.{txn_next_elem}
use app_sia_x.Txn.Encoding.{Display}
use app_sia_x.Txn.Encoding.Stage.{IsShown, Stands}
use app_sia_x.Txn.Encoding.Decoding.{Decodes, presents, asks, ends, txn_next_elem-Decodes}
use app_sia_x.Txn.Honest.{concat, work, AreShort}
use app_sia_x.Device.{show_txn_elem, sign_txn, Device, show_flow, io_exchange_with_code}
use app_sia_x.Calc.Format.{fmt_txn_elem}
use app_sia_x.Calc.Handler.{
  with_txn, set_elem_part, name_key, send_hash, end_session, on_state_button, next_elem,
  elem_button,
}
use app_sia_x.Device.Replies.{word_bytes, stored-sends}
use app_sia_x.Calc.Dialog.{newest, is_sw_ok, send, pressed, watch, attend}
use app_sia_x.Calc.Dialog.Formats.{fmt_elem-Formats, IsSigning, Formats-IsSigning}
use app_sia_x.Calc.Dialog.Looks.{
  Signed, GoesOn, asked_to_sign, advanced, presented, Stands-IsValid, send-Signed,
}

newest-append : (xs : List Bytes) (x : Bytes) → newest (xs ++ x ∷ []) ≡ x
newest-append [] x = refl
newest-append (y ∷ []) x = refl
newest-append (y ∷ z ∷ xs) x = newest-append (z ∷ xs) x

module _ {C K : Type 0} (sdk : Sdk C) (laws : IsSdk sdk) (keys : KeySdk K) (signs : IsKeySdk keys)
    (junk : Bytes) (sig_index key : ℕ) (all : Bytes) where
  sent_room :
      (code : ℕ) (d : Device C) → length (io_exchange_with_code code 0 d).apdu ≡ length d.apdu
  unfolding io_exchange_with_code
  sent_room code d =
      length-write (write d.apdu 0 (u8 (code / 2 ^ 8) ∷ [])) 1 (bit_and code 0xFF ∷ [])
      ∙ length-write d.apdu 0 (u8 (code / 2 ^ 8) ∷ [])

  -- A status word alone.
  sent_word :
      (code : ℕ) (d : Device C)
      → 2 ≤ length d.apdu
      → (io_exchange_with_code code 0 d).sent ≡ d.sent ++ word_bytes code ∷ []
  sent_word code d room =
      ap (λ b. (io_exchange_with_code code 0 (record d { apdu = b })).sent)
        (sym (write-nil d.apdu 0))
      ∙ stored-sends code 0 [] d refl (omega arith)

  -- No response was sent on the press.
  unanswered :
      (look : List Bytes → Device C → Option (Device C)) (packets : List Bytes) (d d' : Device C)
      (r : Result ℕ (Unit {0}))
      → d'.sent ≡ d.sent
      → Signed sdk laws keys signs junk sig_index key all (look packets d')
      → Signed sdk laws keys signs junk sig_index key all (pressed sdk junk look packets d (r, d'))
  unanswered look packets d d' r e h =
      let same : (length d'.sent == length d.sent) ≡ true =
        ground (arith, ap (length {A = Bytes}) e) in
      let response = if is_sw_ok (newest d'.sent) then send sdk junk look packets d' else none in
      subst (Signed sdk laws keys signs junk sig_index key all)
        (sym (ap (λ b. if b then look packets d' else response) same)) h

  another_elem :
      (fuel : ℕ) (packets : List Bytes) (d : Device C) (ds : List Display)
      (res : Result ℕ TxnDecoderState × TxnState C)
      → GoesOn sdk laws keys signs junk sig_index key all fuel
      → AreShort packets
      → 2 * (d.ctx.txn.buflen + work packets) < fuel
      → IsSigning key d
      → Decodes sdk laws sig_index all (concat packets) ds d.ctx.txn res
      → Signed sdk laws keys signs junk sig_index key all (
          pressed sdk junk
            (attend sdk junk fuel)
            packets
            d
            (continue (λ s. modify (on_state_button s)) (with_txn d res)))
  unfolding on_state_button end_session show_flow name_key set_elem_part fmt_txn_elem
      io_exchange_with_code
  another_elem fuel packets d ds _ go short enough h (presents u p) =
      let d' = record d { ctx = record d.ctx { txn = u } } in
      let f = fmt_elem-Formats u.elem_type (set_elem_part d') p.kind (omega arith) in
      unanswered (attend sdk junk fuel) packets d _ (ok tt) f.same_sent (
        presented sdk laws keys signs junk sig_index key all fuel packets d' ds d.ctx.txn.buflen _
          go short enough (advanced sdk laws keys signs junk sig_index key all d u h) p)
  another_elem fuel packets d ds _ go short enough h (asks u w) =
      let d' = io_exchange_with_code sw_ok 0 (record d { ctx = record d.ctx { txn = u } }) in
      let sent : d'.sent ≡ d.sent ++ word_bytes sw_ok ∷ [] =
        sent_word sw_ok (record d { ctx = record d.ctx { txn = u } }) (omega (arith, h.room)) in
      let more : (length d'.sent == length d.sent) ≡ false =
        ground (arith, length-append d.sent (take 2 d'.apdu ∷ [])) in
      let good : is_sw_ok (newest d'.sent) ≡ true =
        ap (λ xs. is_sw_ok (newest xs)) sent
        ∙ ap is_sw_ok (newest-append d.sent (word_bytes sw_ok)) in
      let look = attend sdk junk fuel in
      let next = send sdk junk look packets d' in
      subst (Signed sdk laws keys signs junk sig_index key all)
        (sym (
          ap (λ b. if b then look packets d' else if is_sw_ok (newest d'.sent) then next else none)
            more
          ∙ ap (λ b. if b then next else none) good))
        (send-Signed sdk laws keys signs junk sig_index key all fuel packets d.ctx.txn.buflen d' ds
          go short (omega arith)
          (record {
            initialized = h.initialized;
            sign = h.sign;
            key_index = h.key_index;
            room = omega (arith, h.room, sent_room sw_ok d);
          })
          w)
  another_elem fuel packets d ds _ go short enough h (ends u last digest) =
      let d' = record d { ctx = record d.ctx { txn = u } } in
      let question = show_flow sign_txn (name_key d') in
      let chosen : end_session (if d'.ctx.sign then question else send_hash d')
          ≡ end_session question =
        ap (λ b. end_session (if b then question else send_hash d')) h.sign in
      subst
        (λ r.
          Signed sdk laws keys signs junk sig_index key all
            (pressed sdk junk (attend sdk junk fuel) packets d (ok tt, r)))
        (sym chosen)
        (unanswered (attend sdk junk fuel) packets d (end_session question) (ok tt) refl (
          asked_to_sign sdk laws keys signs junk sig_index key all fuel packets
            (end_session question) (omega arith) h.key_index h.room refl digest))

  elem_pressed :
      (fuel : ℕ) (packets : List Bytes) (d : Device C) (ds : List Display)
      → GoesOn sdk laws keys signs junk sig_index key all fuel
      → AreShort packets
      → 2 * (d.ctx.txn.buflen + work packets) + d.ctx.elem_part + 1 < suc fuel
      → IsSigning key d
      → d.ctx.elem_part ≤ 1
      → IsShown d.ctx.txn.elem_type
      → Stands sdk sig_index all (concat packets) ds d.ctx.txn.buflen d.ctx.txn
      → Signed sdk laws keys signs junk sig_index key all
          (pressed sdk junk (attend sdk junk fuel) packets d (elem_button sdk d))
  unfolding elem_button next_elem show_flow fmt_txn_elem
  elem_pressed fuel packets d ds go short enough h part shown there =
      elim (Bool-cases (ltb 0 d.ctx.elem_part)) [
        | inl second ↦
            let f = fmt_elem-Formats d.ctx.txn.elem_type d shown part in
            let d' = show_flow show_txn_elem (fmt_txn_elem d) in
            let same = sym f.same_txn in
            let count : d'.ctx.txn.buflen ≡ d.ctx.txn.buflen = ap (λ t. t.buflen) f.same_txn in
            let late : 1 ≤ d.ctx.elem_part = ground arith in
            let signing = Formats-IsSigning key d (fmt_txn_elem d) f h in
            let run : elem_button sdk d ≡ (ok tt, d') =
              ap
                (λ b.
                  if b
                  then (ok tt, d')
                  else ((next_elem sdk >>= λ s. modify (on_state_button s)) d))
                second in
            subst
              (λ r.
                Signed sdk laws keys signs junk sig_index key all
                  (pressed sdk junk (attend sdk junk fuel) packets d r))
              (sym run)
              (unanswered (attend sdk junk fuel) packets d d' (ok tt) f.same_sent (
                go packets d' ds short (omega (arith, f.turned))
                  (record {
                    initialized = signing.initialized;
                    sign = signing.sign;
                    key_index = signing.key_index;
                    room = signing.room;
                  })
                  refl (omega (arith, f.turned)) (subst (λ t. IsShown t.elem_type) same shown)
                  (subst (λ t. Stands sdk sig_index all (concat packets) ds t.buflen t) same
                    there)))
        | inr first ↦
            let run : elem_button sdk d
                ≡ continue (λ s. modify (on_state_button s))
                    (with_txn d (txn_next_elem sdk d.ctx.txn)) =
              ap
                (λ b.
                  if b
                  then (ok tt, show_flow show_txn_elem (fmt_txn_elem d))
                  else ((next_elem sdk >>= λ s. modify (on_state_button s)) d))
                first in
            subst
              (λ r.
                Signed sdk laws keys signs junk sig_index key all
                  (pressed sdk junk (attend sdk junk fuel) packets d r))
              (sym run)
              (another_elem fuel packets d ds (txn_next_elem sdk d.ctx.txn) go short (omega arith) h
                (txn_next_elem-Decodes sdk laws sig_index all (concat packets) ds d.ctx.txn
                  (Stands-IsValid sdk laws keys signs junk sig_index key all ds d.ctx.txn.buflen
                    (concat packets) d.ctx.txn there)
                  there))
      ]

  pub attend-GoesOn : (fuel : ℕ) → GoesOn sdk laws keys signs junk sig_index key all fuel
  unfolding attend
  attend-GoesOn zero packets d ds short enough h screen part shown there = absurd (omega arith)
  attend-GoesOn (suc fuel) packets d ds short enough h screen part shown there =
      let seen : attend sdk junk (suc fuel) packets d
          ≡ pressed sdk junk (attend sdk junk fuel) packets d (elem_button sdk d) =
        ap (λ s. watch sdk junk (attend sdk junk fuel) packets s d) screen in
      subst (Signed sdk laws keys signs junk sig_index key all) (sym seen)
        (elem_pressed fuel packets d ds (attend-GoesOn fuel) short enough h part shown there)
