-- ===== src/Calc/Signing.antt =====
-- What the calcTxnHash command (src/calcTxnHash.c) asks the user to sign, and what is signed.
use app_sia_x.Base.{
  ℕ, ◌+◌, ◌-◌, ◌^◌, ◌≤◌, ◌≡◌, ◌≢◌, refl, sym, arith, inl, inr, Bool, false, Bool-cases, ltb, u8,
  u16, [], ◌++◌, Bytes, length, take, drop, All, IsByte, Result, ok, throw,
}
use mathlib.Core.Path.{subst}
use app_sia_x.Sdk.{Sdk, IsSdk}
use app_sia_x.Keys.{KeySdk, IsKeySdk}
use app_sia_x.Txn.State.{TxnState, buf_size}
use app_sia_x.Txn.Decode.{txn_update}
use app_sia_x.Txn.Transcript.{Log, rewound, Log-rewound}
use app_sia_x.Txn.SigHash.{Fed, Fed-LogOf, rewind, txn_update-Log, txn_init-Log}
use app_sia_x.Device.{Device, sign_txn}
use app_sia_x.Calc.Approval.{Signs, updated, elem_button-Signs}
use app_sia_x.Calc.Handler.{
  p1_first, p1_more, update_txn, elem_button, begin_session, feed_txn, first_packet, more_packet,
  handle_calc_txn_hash, is_packet,
}

threw : (r : Result ℕ (Unit {0})) (x : ℕ) → r ≡ throw x → r ≢ ok tt
threw r x h e = cc

-- `txn_update` has taken the packet only if it fits.
txn_update_fits :
    {C : Type 0} (bin : Bytes) (t : TxnState C)
    → (txn_update bin t).0 ≡ ok tt
    → t.buflen + length bin ≤ buf_size
unfolding txn_update
txn_update_fits bin t e = elim (Bool-cases (ltb buf_size (t.buflen + length bin))) [
  | inl full ↦ absurd (threw _ _ refl (rw full at e))
  | inr fits ↦ ground arith
]

module _ {C K : Type 0} (sdk : Sdk C) (laws : IsSdk sdk) (keys : KeySdk K) (signs : IsKeySdk keys)
    (sig_index : ℕ) where
  feed_txn-Signs :
      (key : ℕ) (input buf : Bytes) (len : ℕ) (d : Device C)
      → All IsByte (take (u8 len) buf)
      → Log sdk sig_index input (rewound sdk d.ctx.txn)
      → 66 ≤ length d.apdu
      → d.screen ≢ sign_txn
      → d.ctx.key_index ≡ key
      → let d' = (feed_txn sdk buf len d).1 in
        d'.screen ≡ sign_txn
        → Signs sdk laws keys signs sig_index key (input ++ take (u8 len) buf) d'
  unfolding feed_txn update_txn
  feed_txn-Signs key input buf len d bytes log room before named =
      let bin = take (u8 len) buf in
      updated sdk laws keys signs sig_index key (input ++ bin) d room before named
        (txn_update bin d.ctx.txn)
        (λ e.
          txn_update-Log sdk laws sig_index input bin d.ctx.txn bytes
            (txn_update_fits bin d.ctx.txn e) log)

  -- A turn of a session that has begun: a press of the element button while the decoder does not
  -- wait for a packet, or a packet, with the bytes that have come before and after it.
  pub data Turn (d : Device C) (input : Bytes) : Bool → Bytes → Device C → Type 0 where
    press : Turn d input false input (elem_button sdk d).1
    more :
        {waiting : Bool} (p2 : ℕ) (buf : Bytes) (len : ℕ)
        → len ≤ 255
        → All IsByte (take len buf)
        → Turn d input waiting
            (input ++ take len buf)
            (handle_calc_txn_hash sdk p1_more p2 buf len d).1

  more_packet-Signs :
      (input buf : Bytes) (p2 len : ℕ) (d : Device C)
      → All IsByte (take (u8 len) buf)
      → Log sdk sig_index input (rewound sdk d.ctx.txn)
      → 66 ≤ length d.apdu
      → d.screen ≢ sign_txn
      → let d' = (handle_calc_txn_hash sdk p1_more p2 buf len d).1 in
        d'.screen ≡ sign_txn
        → Signs sdk laws keys signs sig_index d.ctx.key_index (input ++ take (u8 len) buf) d'
  unfolding handle_calc_txn_hash more_packet
  more_packet-Signs input buf p2 len d bytes log room before e =
      elim (Bool-cases (is_packet p1_more p2)) [
        | inl good ↦ elim (Bool-cases d.ctx.initialized) [
          | inl begun ↦
              simp (good, begun)
                (feed_txn-Signs d.ctx.key_index input buf len d bytes log room before refl
                  (simp (good, begun) at e))
          | inr idle ↦ absurd (before (simp (good, idle) at e))
        ]
        | inr bad ↦ absurd (before (rw bad at e))
      ]

  -- Suppose that a session has fed the decoder without an error. If a further packet, of at most 255
  -- bytes, or a press of the element button while the decoder does not wait for a packet, brings up
  -- the question whether to sign, then the decoder is behind the last signature of a transaction,
  -- and all the bytes that have come are its transcript, in Sia's encoding, and what is still
  -- buffered. An approval then sends the signature, by the key that the session had before that
  -- turn, of the BLAKE2b hash of the covered bytes of that transcript, for the signature at
  -- `sigIndex`, and SW_OK. This holds for an SDK as documented and an APDU buffer of 66 bytes at
  -- least.
  pub Turn-Signs :
      (d d' : Device C) (waiting : Bool) (input input' : Bytes)
      → Fed sdk laws sig_index waiting input d.ctx.txn
      → 66 ≤ length d.apdu
      → d.screen ≢ sign_txn
      → Turn d input waiting input' d'
      → d'.screen ≡ sign_txn
      → Signs sdk laws keys signs sig_index d.ctx.key_index input' d'
  Turn-Signs d _ _ input _ fed room before press e =
      elem_button-Signs sdk laws keys signs sig_index d.ctx.key_index input d
        (Fed-LogOf sdk laws sig_index false input _ fed) room before refl e
  Turn-Signs d _ waiting input _ fed room before (more p2 buf len small bytes) e =
      let same : u8 len ≡ len = omega arith in
      subst
        (λ n.
          Signs sdk laws keys signs sig_index d.ctx.key_index (input ++ take n buf)
            (handle_calc_txn_hash sdk p1_more p2 buf len d).1)
        same
        (more_packet-Signs input buf p2 len d
          (subst (λ n. All IsByte (take n buf)) (sym same) bytes)
          (rewind sdk laws sig_index waiting input _
            (Fed-LogOf sdk laws sig_index waiting input _ fed))
          room before e)

module _ {C K : Type 0} (sdk : Sdk C) (laws : IsSdk sdk) (keys : KeySdk K)
    (signs : IsKeySdk keys) where
  first_packet_runs :
      (p2 : ℕ) (buf : Bytes) (len : ℕ) (d : Device C)
      → All IsByte (take (u8 (u16 (len + 2 ^ 16 - 6))) (drop 6 buf))
      → 66 ≤ length d.apdu
      → d.screen ≢ sign_txn
      → (handle_calc_txn_hash sdk p1_first p2 buf len d).1.screen ≡ sign_txn
      → Signs sdk laws keys signs
          (sdk.u2_le (drop 4 buf) 0)
          (sdk.u4_le buf 0)
          (take (u8 (u16 (len + 2 ^ 16 - 6))) (drop 6 buf))
          (handle_calc_txn_hash sdk p1_first p2 buf len d).1
  unfolding handle_calc_txn_hash first_packet begin_session
  first_packet_runs p2 buf len d bytes room before e = elim (Bool-cases (is_packet p1_first p2)) [
    | inl good ↦ elim (Bool-cases d.ctx.initialized) [
      | inl begun ↦ absurd (before (simp (good, begun) at e))
      | inr idle ↦
          let sig_index = sdk.u2_le (drop 4 buf) 0 in
          simp (good, idle)
            (feed_txn-Signs sdk laws keys signs sig_index (sdk.u4_le buf 0) [] (drop 6 buf)
              (u16 (len + 2 ^ 16 - 6)) (begin_session sdk p2 buf d) bytes
              (Log-rewound sdk sig_index [] _ (txn_init-Log sdk laws sig_index)) room before refl
              (simp (good, idle) at e))
    ]
    | inr bad ↦ absurd (before (rw bad at e))
  ]

  -- If a first packet, of 6 to 255 bytes, brings up the question whether to sign, then the bytes of
  -- the packet behind the first six are the transcript of a transaction up to its last signature, in
  -- Sia's encoding, and what is still buffered. An approval then sends the signature, by the key that
  -- the packet names, of the BLAKE2b hash of the covered bytes of that transcript, for the signature
  -- that the packet names, of which the transaction has more, and SW_OK. This holds for an SDK as
  -- documented and an APDU buffer of 66 bytes at least.
  pub first_packet-Signs :
      (p2 : ℕ) (buf : Bytes) (len : ℕ) (d : Device C)
      → 6 ≤ len
      → len ≤ 255
      → All IsByte (take (len - 6) (drop 6 buf))
      → 66 ≤ length d.apdu
      → d.screen ≢ sign_txn
      → (handle_calc_txn_hash sdk p1_first p2 buf len d).1.screen ≡ sign_txn
      → Signs sdk laws keys signs
          (sdk.u2_le (drop 4 buf) 0)
          (sdk.u4_le buf 0)
          (take (len - 6) (drop 6 buf))
          (handle_calc_txn_hash sdk p1_first p2 buf len d).1
  first_packet-Signs p2 buf len d least most bytes room before e =
      let same : u8 (u16 (len + 2 ^ 16 - 6)) ≡ len - 6 = omega arith in
      subst
        (λ n.
          Signs sdk laws keys signs (sdk.u2_le (drop 4 buf) 0) (sdk.u4_le buf 0)
            (take n (drop 6 buf)) (handle_calc_txn_hash sdk p1_first p2 buf len d).1)
        same
        (first_packet_runs p2 buf len d
          (subst (λ n. All IsByte (take n (drop 6 buf))) (sym same) bytes) room before e)
