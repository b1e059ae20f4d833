-- ===== src/Calc/Approval.antt =====
-- What the calcTxnHash command (src/calcTxnHash.c) does when the decoder is behind the last signature:
-- the question whether to sign, and what an approval sends.
use app_sia_x.Base.{
  ℕ, ◌≤◌, ◌≡◌, ◌≢◌, refl, ap, ◌∙◌, inl, inr, Bool-cases, ltb, [], ◌∷◌, ◌++◌, Bytes, length, Result,
  ok, throw, stuck, continue, modify, ◌>>=◌,
}
use app_sia_x.Sdk.{Sdk, IsSdk}
use app_sia_x.Codes.{TxnDecoderState, err, partial, ready, finished, sw_ok}
use app_sia_x.Blake2b.{blake2b}
use app_sia_x.Keys.{KeySdk, IsKeySdk, derive_and_sign}
use app_sia_x.Keys.Address.{length-blake2b}
use app_sia_x.Keys.Signature.{length-derive_and_sign}
use app_sia_x.Txn.State.{TxnState}
use app_sia_x.Txn.Decode.{txn_next_elem}
use app_sia_x.Txn.Transcript.{Log, Finished}
use app_sia_x.Txn.SigHash.{Decoded, txn_next_elem-Decoded}
use app_sia_x.Device.{
  Device, show_flow, compare_hash, sign_txn, show_txn_elem, ui_idle, io_exchange_with_code,
  reply_later,
}
use app_sia_x.Device.Replies.{word_bytes, stored-sends}
use app_sia_x.Calc.Format.{fmt_txn_elem}
use app_sia_x.Calc.Handler.{
  with_txn, set_elem_part, name_key, number_key, send_hash, touch_txn_hash_ok, end_session,
  on_state_button, on_state, next_elem, elem_button,
}

not_asked : compare_hash ≢ sign_txn
not_asked e = cc

still_elem : show_txn_elem ≢ sign_txn
still_elem e = cc

-- An approval sends the signature of the stored hash.
pub touch_txn_hash_ok-sends :
    {C K : Type 0} (sdk : Sdk C) (laws : IsSdk sdk) (keys : KeySdk K) (signs : IsKeySdk keys)
    (hashed : Bytes) (d : Device C)
    → d.ctx.txn.sig_hash ≡ blake2b sdk 32 hashed
    → 66 ≤ length d.apdu
    → (touch_txn_hash_ok keys d).sent
      ≡ d.sent
        ++ (derive_and_sign keys d.ctx.key_index (blake2b sdk 32 hashed) ++ word_bytes sw_ok) ∷ []
unfolding touch_txn_hash_ok ui_idle show_flow io_exchange_with_code
touch_txn_hash_ok-sends sdk laws keys signs hashed d digest room =
    let signature = derive_and_sign keys d.ctx.key_index (blake2b sdk 32 hashed) in
    ap
      (λ h.
        (touch_txn_hash_ok keys
          (record d { ctx = record d.ctx { txn = record d.ctx.txn { sig_hash = h } } })).sent)
      digest
    ∙ stored-sends sw_ok 64 signature d
        (length-derive_and_sign keys signs d.ctx.key_index _ (length-blake2b sdk laws hashed)) room

module _ {C K : Type 0} (sdk : Sdk C) (laws : IsSdk sdk) (keys : KeySdk K) (signs : IsKeySdk keys)
    (sig_index key : ℕ) (input : Bytes) where
  -- The decoder is behind the last signature, and an approval sends the signature by key number
  -- `key` of the hash of the covered bytes.
  pub record Signs (d : Device C) : Type 0 where
    pub txn : Finished sdk sig_index input d.ctx.txn
    pub reply :
        (touch_txn_hash_ok keys d).sent
        ≡ d.sent ++ (derive_and_sign keys key (blake2b sdk 32 txn.hashed) ++ word_bytes sw_ok) ∷ []

  approve :
      (d : Device C)
      → Finished sdk sig_index input d.ctx.txn
      → 66 ≤ length d.apdu
      → d.ctx.key_index ≡ key
      → Signs d
  approve d txn room same = record {
    txn = txn;
    reply =
        touch_txn_hash_ok-sends sdk laws keys signs txn.hashed d txn.digest room
        ∙ ap
            (λ k.
              d.sent
              ++ (derive_and_sign keys k (blake2b sdk 32 txn.hashed) ++ word_bytes sw_ok) ∷ [])
            same;
  }

  module _ (d : Device C) (room : 66 ≤ length d.apdu) (before : d.screen ≢ sign_txn)
      (named : d.ctx.key_index ≡ key) where
    pressed :
        (r : Result ℕ TxnDecoderState) (t : TxnState C)
        → Decoded sdk laws sig_index input r t
        → let d' = (continue (λ s. modify (on_state_button s)) (with_txn d (r, t))).1 in
          d'.screen ≡ sign_txn → Signs d'
    unfolding on_state_button ui_idle io_exchange_with_code show_flow fmt_txn_elem set_elem_part
        end_session name_key send_hash
    pressed (ok err) t h e = cc
    pressed (ok partial) t h e = absurd (before e)
    pressed (ok ready) t h e = cc
    pressed (ok finished) t h e = elim (Bool-cases d.ctx.sign) [
      | inl sign ↦ rw sign (approve _ h room named)
      | inr display ↦ absurd (not_asked (rw display at e))
    ]
    pressed (throw x) t h e = absurd (before e)
    pressed stuck t h e = absurd (before e)

    handled :
        (r : Result ℕ TxnDecoderState) (t : TxnState C)
        → Decoded sdk laws sig_index input r t
        → let d' = (continue on_state (with_txn d (r, t))).1 in d'.screen ≡ sign_txn → Signs d'
    unfolding on_state ui_idle io_exchange_with_code show_flow fmt_txn_elem set_elem_part
        end_session name_key number_key send_hash reply_later
    handled (ok err) t h e = absurd (before e)
    handled (ok partial) t h e = absurd (before e)
    handled (ok ready) t h e = cc
    handled (ok finished) t h e = elim (Bool-cases d.ctx.sign) [
      | inl sign ↦ rw sign (approve _ h room named)
      | inr display ↦ absurd (not_asked (rw display at e))
    ]
    handled (throw x) t h e = absurd (before e)
    handled stuck t h e = absurd (before e)

  -- Behind `txn_update`.
  pub updated :
      (d : Device C)
      → 66 ≤ length d.apdu
      → d.screen ≢ sign_txn
      → d.ctx.key_index ≡ key
      → (res : Result ℕ (Unit {0}) × TxnState C) → (res.0 ≡ ok tt → Log sdk sig_index input res.1)
      → let d' = (continue (λ _. next_elem sdk >>= on_state) (with_txn d res)).1 in
        d'.screen ≡ sign_txn → Signs d'
  unfolding next_elem
  updated d room before named (ok _, t) log e =
      let d' = record d { ctx = record d.ctx { txn = t } } in
      let (r, t') = txn_next_elem sdk t in
      handled d' room before named r t'
        (txn_next_elem-Decoded sdk laws sig_index input t (log refl)) e
  updated d room before named (throw x, t) log e = absurd (before e)
  updated d room before named (stuck, t) log e = absurd (before e)

  pub elem_button-Signs :
      (d : Device C)
      → Log sdk sig_index input d.ctx.txn
      → 66 ≤ length d.apdu
      → d.screen ≢ sign_txn
      → d.ctx.key_index ≡ key
      → (elem_button sdk d).1.screen ≡ sign_txn
      → Signs (elem_button sdk d).1
  unfolding elem_button next_elem show_flow
  elem_button-Signs d log room before named e = elim (Bool-cases (ltb 0 d.ctx.elem_part)) [
    | inl part ↦ absurd (still_elem (rw part at e))
    | inr whole ↦ rw whole (
        pressed d room before named _ _
          (txn_next_elem-Decoded sdk laws sig_index input d.ctx.txn log) (rw whole at e))
  ]
