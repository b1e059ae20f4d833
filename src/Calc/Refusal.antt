-- ===== src/Calc/Refusal.antt =====
-- Which packets the calcTxnHash command (src/calcTxnHash.c) refuses before it reads them.
use app_sia_x.Base.{
  ℕ, ◌+◌, ◌-◌, ◌^◌, ◌≡◌, ◌≢◌, ◌⊎◌, inl, inr, refl, arith, ap, ◌∙◌, Bool, true, false, Bool-cases,
  not, ◌==◌, ltb, Bytes, length, take, drop, u8, u16, if◌then◌else◌, Result, ok, throw, stuck,
  continue, raise, sym, ◌>>=◌,
}
use app_sia_x.Sdk.{Sdk}
use app_sia_x.Codes.{
  TxnDecoderState, err, partial, ready, finished, sw_invalid_param, sw_improper_init,
}
use app_sia_x.Txn.State.{TxnState, buf_size}
use app_sia_x.Txn.Decode.{catch_state, decode_elems, txn_update, txn_next_elem}
use app_sia_x.Device.{Device}
use app_sia_x.Calc.Handler.{
  p1_first, with_txn, update_txn, next_elem, on_state, feed_txn, begin_session, first_packet,
  more_packet, is_packet, handle_calc_txn_hash,
}

-- Parameters without a meaning.
abbrev pub IsUnknown : ℕ → ℕ → Type 0
IsUnknown p1 p2 = ((p1 ≢ 0x00) × (p1 ≢ 0x80)) ⊎ ((p2 ≢ 0) × (p2 ≢ 1))

-- A first packet within a session, or a further one outside of any.
abbrev pub IsOutOfTurn : ℕ → Bool → Type 0
IsOutOfTurn p1 begun = ((p1 ≡ 0x00) × (begun ≡ true)) ⊎ ((p1 ≡ 0x80) × (begun ≡ false))

abbrev thrown : {A : Type 0} → Result ℕ A → ℕ
thrown (throw x) = x
thrown _ = 0

unknown : (p1 p2 : ℕ) → is_packet p1 p2 ≡ false → IsUnknown p1 p2
unknown p1 p2 e = ground arith

known : (p1 p2 : ℕ) → is_packet p1 p2 ≡ true → ¬ IsUnknown p1 p2 × ((p1 ≡ 0x00) ⊎ (p1 ≡ 0x80))
known p1 p2 e = (λ h. ground arith, ground arith)

module _ {C : Type 0} (sdk : Sdk C) where
  -- Nothing behind the tests throws SW_IMPROPER_INIT.
  on_state_throws : (s : TxnDecoderState) (d : Device C) → (on_state s d).0 ≢ throw sw_improper_init
  unfolding on_state
  on_state_throws err d e = omega (arith, ap thrown e)
  on_state_throws partial d e = omega (arith, ap thrown e)
  on_state_throws ready d e = cc
  on_state_throws finished d e = cc

  decoded :
      (r : Result TxnDecoderState (Unit {0})) (t : TxnState C) (d : Device C)
      → (continue on_state (with_txn d (catch_state {E = ℕ} r t.buflen, t))).0
        ≢ throw sw_improper_init
  unfolding catch_state
  decoded (ok _) t d = λ e. cc
  decoded stuck t d = λ e. cc
  decoded (throw x) t d = elim (Bool-cases (ltb buf_size (t.buflen + 255))) [
    | inl full ↦ rw full (on_state_throws err _)
    | inr free ↦ rw free (on_state_throws x _)
  ]

  behind_update :
      (res : Result ℕ (Unit {0}) × TxnState C) (d : Device C)
      → res.0 ≢ throw sw_improper_init
      → (continue (λ _. next_elem sdk >>= on_state) (with_txn d res)).0 ≢ throw sw_improper_init
  unfolding next_elem txn_next_elem
  behind_update (ok _, t) d h =
      let (r, t') = decode_elems sdk (t.buflen + 1) t in
      decoded r t' (record d { ctx = record d.ctx { txn = t } })
  behind_update (throw x, t) d h = λ e. h (ap throw (ap thrown e))
  behind_update (stuck, t) d h = λ e. cc

  updated : (bin : Bytes) (t : TxnState C) → (txn_update bin t).0 ≢ throw sw_improper_init
  unfolding txn_update
  updated bin t = elim (Bool-cases (ltb buf_size (t.buflen + length bin))) [
    | inl full ↦ rw full (λ e. omega (arith, ap thrown e))
    | inr fits ↦ rw fits (λ e. cc)
  ]

  fed : (buf : Bytes) (len : ℕ) (d : Device C) → (feed_txn sdk buf len d).0 ≢ throw sw_improper_init
  unfolding feed_txn update_txn
  fed buf len d = behind_update _ d (updated (take (u8 len) buf) d.ctx.txn)

  module _ (p1 p2 : ℕ) (buf : Bytes) (len : ℕ) (d : Device C) where
    abbrev answer : Result ℕ (Unit {0}) × Device C
    answer = handle_calc_txn_hash sdk p1 p2 buf len d

    -- The code's own tests, in a row.
    by_tests :
        (good first begun : Bool)
        → is_packet p1 p2 ≡ good
        → (p1 == p1_first) ≡ first
        → d.ctx.initialized ≡ begun
        → answer ≡ (
            if not good
            then raise sw_invalid_param d
            else if first
            then (if begun
                then raise sw_improper_init d
                else feed_txn sdk
                    (drop 6 buf)
                    (u16 (len + 2 ^ 16 - 6))
                    (begin_session sdk p2 buf d))
            else if not begun
            then raise sw_improper_init d
            else feed_txn sdk buf len d)
    unfolding handle_calc_txn_hash first_packet more_packet
    by_tests good first begun e f g = rw (← e, ← f, ← g) refl

    taken :
        (res : Result ℕ (Unit {0}) × Device C)
        → answer ≡ res
        → res.0 ≢ throw sw_improper_init
        → answer.0 ≢ throw sw_improper_init
    taken res run h = λ e. h (ap (λ r. r.0) (sym run) ∙ e)

  -- Every packet is treated in one of three ways. With parameters other than 0x00 or 0x80 and 0 or
  -- 1, it is refused with SW_INVALID_PARAM and changes nothing. Otherwise, a first packet within a
  -- session and a further packet outside of one are refused with SW_IMPROPER_INIT and change
  -- nothing; and no other packet gets that status word, whatever its bytes.
  pub handle_calc_txn_hash-refuses :
      (p1 p2 : ℕ) (buf : Bytes) (len : ℕ) (d : Device C)
      → let res = handle_calc_txn_hash sdk p1 p2 buf len d in
        (IsUnknown p1 p2 × (res ≡ (throw sw_invalid_param, d)))
        ⊎ (¬ IsUnknown p1 p2
            × IsOutOfTurn p1 d.ctx.initialized
            × (res ≡ (throw sw_improper_init, d)))
        ⊎ (¬ IsUnknown p1 p2
            × ¬ IsOutOfTurn p1 d.ctx.initialized
            × (res.0 ≢ throw sw_improper_init))
  handle_calc_txn_hash-refuses p1 p2 buf len d = elim (Bool-cases (is_packet p1 p2)) [
    | inr bad ↦ inl (unknown p1 p2 bad, by_tests p1 p2 buf len d false _ _ bad refl refl)
    | inl good ↦
        let (told, kind) = known p1 p2 good in
        elim kind [
          | inl first ↦
              let test : (p1 == p1_first) ≡ true = ground arith in
              elim (Bool-cases d.ctx.initialized) [
                | inl begun ↦ inr (
                    inl (
                      told,
                      inl (first, begun),
                      by_tests p1 p2 buf len d true true true good test begun,
                    ))
                | inr idle ↦ inr (
                    inr (
                      told,
                      λ h. ground arith,
                      taken p1 p2 buf len d _
                          (by_tests p1 p2 buf len d true true false good test idle)
                          (fed _ _ (begin_session sdk p2 buf d)),
                    ))
              ]
          | inr more ↦
              let test : (p1 == p1_first) ≡ false = ground arith in
              elim (Bool-cases d.ctx.initialized) [
                | inl begun ↦ inr (
                    inr (
                      told,
                      λ h. ground arith,
                      taken p1 p2 buf len d _
                          (by_tests p1 p2 buf len d true false true good test begun)
                          (fed buf len d),
                    ))
                | inr idle ↦ inr (
                    inl (
                      told,
                      inr (more, idle),
                      by_tests p1 p2 buf len d true false false good test idle,
                    ))
              ]
        ]
  ]
