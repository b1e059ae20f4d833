-- ===== src/Calc/Dialog/Looks.antt =====
-- The packets of the session (src/calcTxnHash.c): what each leads to, if the user can go on behind it.
use app_sia_x.Base.{
  ℕ, zero, suc, ◌+◌, ◌*◌, ◌≤◌, ◌<◌, ◌≡◌, if◌then◌else◌, refl, sym, ap, ◌∙◌, arith, Bool, true, not,
  List, [], ◌∷◌, ◌++◌, Bytes, length, length-append, take, take-append_self, u8, Option, Result, ok,
  throw, continue, ◌>>=◌,
}
use mathlib.Core.Path.{subst}
use app_sia_x.Sdk.{Sdk, IsSdk}
use app_sia_x.Codes.{TxnDecoderState, sw_improper_init, sw_ok}
use app_sia_x.Blake2b.{blake2b}
use app_sia_x.Keys.{KeySdk, IsKeySdk, derive_and_sign}
use app_sia_x.Txn.State.{TxnState}
use app_sia_x.Txn.Decode.{txn_update, txn_next_elem}
use app_sia_x.Txn.Encoding.{Display}
use app_sia_x.Txn.Encoding.Stage.{IsShown, Stands, stands, Waits, waits, Presents}
use app_sia_x.Txn.Encoding.Decoding.{Decodes, presents, asks, ends, txn_next_elem-Decodes}
use app_sia_x.Txn.Advance.{IsValid}
use app_sia_x.Txn.Honest.{concat, work, AreShort, after_update, no_more}
use app_sia_x.Device.{show_txn_elem, sign_txn, Device, show_flow, reply_later}
use app_sia_x.Device.Replies.{word_bytes}
use app_sia_x.Calc.Format.{fmt_txn_elem}
use app_sia_x.Calc.Approval.{touch_txn_hash_ok-sends}
use app_sia_x.Calc.Handler.{
  p1_more, with_txn, set_elem_part, name_key, number_key, send_hash, end_session, on_state,
  update_txn, next_elem, feed_txn, more_packet, handle_calc_txn_hash,
}
use app_sia_x.Calc.Dialog.{answered, send, watch, attend, Asks}
use app_sia_x.Calc.Dialog.Formats.{fmt_elem-Formats, IsSigning, Formats-IsSigning}

module _ {C K : Type 0} (sdk : Sdk C) (laws : IsSdk sdk) (keys : KeySdk K) (signs : IsKeySdk keys)
    (junk : Bytes) (sig_index key : ℕ) (all : Bytes) where
  abbrev pub Signed : Option (Device C) → Type 0
  Signed r = Asks keys key (blake2b sdk 32 all) r

  -- The user can go on.
  abbrev pub GoesOn : ℕ → Type 0
  GoesOn fuel =
      (packets : List Bytes) (d : Device C) (ds : List Display)
      → AreShort packets
      → 2 * (d.ctx.txn.buflen + work packets) + d.ctx.elem_part + 1 < fuel
      → IsSigning key d
      → d.screen ≡ show_txn_elem
      → d.ctx.elem_part ≤ 1
      → IsShown d.ctx.txn.elem_type
      → Stands sdk sig_index all (concat packets) ds d.ctx.txn.buflen d.ctx.txn
      → Signed (attend sdk junk fuel packets d)

  -- The decoder has finished.
  pub asked_to_sign :
      (fuel : ℕ) (packets : List Bytes) (d : Device C)
      → 0 < fuel
      → d.ctx.key_index ≡ key
      → 66 ≤ length d.apdu
      → d.screen ≡ sign_txn
      → d.ctx.txn.sig_hash ≡ blake2b sdk 32 all
      → Signed (attend sdk junk fuel packets d)
  unfolding attend
  asked_to_sign zero packets d pos same room screen digest = absurd (omega arith)
  asked_to_sign (suc fuel) packets d pos same room screen digest = record {
    device = d;
    returns = ap (λ s. watch sdk junk (attend sdk junk fuel) packets s d) screen;
    question = screen;
    reply =
        touch_txn_hash_ok-sends sdk laws keys signs all d digest room
        ∙ ap (λ k. d.sent ++ (derive_and_sign keys k (blake2b sdk 32 all) ++ word_bytes sw_ok) ∷ [])
            same;
  }

  pub advanced :
      (d : Device C) (t : TxnState C)
      → IsSigning key d
      → IsSigning key (record d { ctx = record d.ctx { txn = t } })
  advanced d t h = record {
    initialized = h.initialized;
    sign = h.sign;
    key_index = h.key_index;
    room = h.room;
  }

  -- The decoder has an element to be shown.
  pub presented :
      (fuel : ℕ) (packets : List Bytes) (d : Device C) (ds : List Display) (bound : ℕ)
      (asynch : Bool)
      → GoesOn fuel
      → AreShort packets
      → 2 * (bound + work packets) < fuel
      → IsSigning key d
      → Presents sdk sig_index all (concat packets) ds bound d.ctx.txn
      → Signed (
          attend sdk junk fuel packets
            (record (show_flow show_txn_elem (fmt_txn_elem (set_elem_part d))) { asynch = asynch }))
  unfolding show_flow fmt_txn_elem set_elem_part
  presented fuel packets d ds bound asynch go short enough h p =
      let f = fmt_elem-Formats d.ctx.txn.elem_type (set_elem_part d) p.kind (omega arith) in
      let d' = fmt_txn_elem (set_elem_part d) in
      let same = sym f.same_txn in
      let signing = Formats-IsSigning key (set_elem_part d) d' f (record {
        initialized = h.initialized;
        sign = h.sign;
        key_index = h.key_index;
        room = h.room;
      }) in
      let less : d'.ctx.txn.buflen < bound = subst (λ t. t.buflen < bound) same p.taken in
      go packets (record (show_flow show_txn_elem d') { asynch = asynch }) p.others short
        (omega (arith, less, f.turned))
        (record {
          initialized = signing.initialized;
          sign = signing.sign;
          key_index = signing.key_index;
          room = signing.room;
        })
        refl (omega (arith, f.turned)) (subst (λ t. IsShown t.elem_type) same p.kind)
        (subst (λ t. Stands sdk sig_index all (concat packets) p.others t.buflen t) same p.then)

  -- Behind `txn_update`.
  pub settled :
      (fuel : ℕ) (packets : List Bytes) (next : Device C → Option (Device C)) (d : Device C)
      (t : TxnState C) (ds : List Display) (res : Result ℕ TxnDecoderState × TxnState C)
      → GoesOn fuel
      → AreShort packets
      → 2 * (t.buflen + work packets) < fuel
      → IsSigning key d
      → ((u : TxnState C)
          → Waits sdk sig_index all (concat packets) ds t.buflen u
          → Signed (next (record d { ctx = record d.ctx { txn = u } })))
      → Decodes sdk laws sig_index all (concat packets) ds t res
      → Signed (answered (attend sdk junk fuel packets) next (continue on_state (with_txn d res)))
  unfolding on_state reply_later end_session show_flow name_key number_key
  settled fuel packets next d t ds _ go short enough h more (presents u p) =
      presented fuel packets (record d { ctx = record d.ctx { txn = u } }) ds t.buflen true go short
        enough (advanced d u h) p
  settled fuel packets next d t ds _ go short enough h more (asks u w) = more u w
  settled fuel packets next d t ds _ go short enough h more (ends u last digest) =
      let d' = record d { ctx = record d.ctx { txn = u } } in
      let question = reply_later (show_flow sign_txn (name_key (number_key d'))) in
      let chosen : end_session (if d'.ctx.sign then question else send_hash d')
          ≡ end_session question =
        ap (λ b. end_session (if b then question else send_hash d')) h.sign in
      subst (λ r. Signed (attend sdk junk fuel packets r)) (sym chosen)
        (asked_to_sign fuel packets (end_session question) (omega arith) h.key_index h.room refl
          digest)

  -- A further packet.
  further :
      (d : Device C) (p : Bytes) (t : TxnState C)
      → IsSigning key d
      → length p ≤ 255
      → txn_update p d.ctx.txn ≡ (ok tt, t)
      → handle_calc_txn_hash sdk p1_more 1 (p ++ junk) (length p) d
        ≡ continue on_state
            (with_txn (record d { ctx = record d.ctx { txn = t } }) (txn_next_elem sdk t))
  unfolding handle_calc_txn_hash more_packet feed_txn update_txn next_elem
  further d p t h short e =
      let front : take (u8 (length p)) (p ++ junk) ≡ p =
        ap (λ n. take n (p ++ junk)) (omega arith) ∙ take-append_self p junk in
      let begun : handle_calc_txn_hash sdk p1_more 1 (p ++ junk) (length p) d
          ≡ feed_txn sdk (p ++ junk) (length p) d =
        ap
          (λ b.
            if not b then (throw sw_improper_init, d) else feed_txn sdk (p ++ junk) (length p) d)
          h.initialized in
      begun
      ∙ ap (λ b. continue (λ _. next_elem sdk >>= on_state) (with_txn d (txn_update b d.ctx.txn)))
          front
      ∙ ap (λ r. continue (λ _. next_elem sdk >>= on_state) (with_txn d r)) e

  pub bound_lem :
      (ds : List Display) (bound : ℕ) (future : Bytes) (t : TxnState C)
      → Waits sdk sig_index all future ds bound t
      → t.buflen ≤ bound
  bound_lem ds bound future t (waits rest stage few le) = le

  pub Stands-IsValid :
      (ds : List Display) (bound : ℕ) (future : Bytes) (t : TxnState C)
      → Stands sdk sig_index all future ds bound t
      → IsValid t
  Stands-IsValid ds bound future t (stands rest stage room le) = stage.valid

  pub send-Signed :
      (fuel : ℕ) (packets : List Bytes) (bound : ℕ) (d : Device C) (ds : List Display)
      → GoesOn fuel
      → AreShort packets
      → 2 * (bound + work packets) < fuel + 2
      → IsSigning key d
      → Waits sdk sig_index all (concat packets) ds bound d.ctx.txn
      → Signed (send sdk junk (attend sdk junk fuel) packets d)
  send-Signed fuel [] bound d ds go short enough h w =
      absurd (no_more sdk laws sig_index all ds bound d.ctx.txn w)
  send-Signed fuel (p ∷ packets) bound d ds go (hp, short) enough h w =
      let (t, run, count, there) =
        after_update sdk laws sig_index all ds bound p (concat packets) d.ctx.txn hp w in
      let small = bound_lem ds bound (p ++ concat packets) d.ctx.txn w in
      let d' = record d { ctx = record d.ctx { txn = t } } in
      let look = attend sdk junk fuel in
      let shorter : t.buflen + work packets + 1 ≤ bound + work (p ∷ packets) =
        omega (arith, length-append p (concat packets)) in
      subst (λ r. Signed (answered (look packets) (send sdk junk look packets) r))
        (sym (further d p t h hp run))
        (settled fuel packets (send sdk junk look packets) d' t ds (txn_next_elem sdk t) go short
          (omega arith) (advanced d t h)
          (λ u w'.
            send-Signed fuel packets t.buflen (record d { ctx = record d.ctx { txn = u } }) ds go
              short (omega arith) (advanced d u h) w')
          (txn_next_elem-Decodes sdk laws sig_index all (concat packets) ds t
            (Stands-IsValid ds t.buflen (concat packets) t there) there))
