-- ===== src/Calc/Dialog/Formats.antt =====
-- The texts for the screen (src/calcTxnHash.c): what fmtTxnElem changes of the device in a session.
use app_sia_x.Base.{
  ℕ, ◌+◌, ◌≤◌, ◌≡◌, ◌==◌, refl, ◌∙◌, arith, inl, inr, true, Bool-cases, Bytes, length, u8,
}
use app_sia_x.Txn.State.{ElemType, sc_output, sf_output, miner_fee}
use app_sia_x.Txn.Encoding.Stage.{IsShown}
use app_sia_x.Device.{Device}
use app_sia_x.Calc.Format.{label_elem, fmt_address, fmt_siacoins, fmt_siafunds, fmt_elem}

-- The text for the screen is made; all else stays.
pub record Formats {C : Type 0} (d d' : Device C) : Type 0 where
  pub same_txn : d'.ctx.txn ≡ d.ctx.txn
  pub same_key : d'.ctx.key_index ≡ d.ctx.key_index
  pub same_sign : d'.ctx.sign ≡ d.ctx.sign
  pub same_initialized : d'.ctx.initialized ≡ d.ctx.initialized
  pub same_apdu : d'.apdu ≡ d.apdu
  pub same_sent : d'.sent ≡ d.sent
  pub same_screen : d'.screen ≡ d.screen
  pub turned : d'.ctx.elem_part + d.ctx.elem_part ≤ 1

module _ {C : Type 0} where
  first_part :
      (d : Device C)
      → (d.ctx.elem_part == 0) ≡ true
      → u8 (d.ctx.elem_part + 1) + d.ctx.elem_part ≤ 1
  first_part d e = let zero_part : d.ctx.elem_part ≡ 0 = ground arith in omega arith

  texts-Formats :
      (d : Device C) (label_str full_str : Bytes) (part : ℕ)
      → part + d.ctx.elem_part ≤ 1
      → Formats d (record d {
        ctx = record d.ctx { label_str = label_str; full_str = full_str; elem_part = part };
      })
  texts-Formats d label_str full_str part le = record {
    same_txn = refl;
    same_key = refl;
    same_sign = refl;
    same_initialized = refl;
    same_apdu = refl;
    same_sent = refl;
    same_screen = refl;
    turned = le;
  }

  pub fmt_elem-Formats :
      (e : ElemType) (d : Device C) → IsShown e → d.ctx.elem_part ≤ 1 → Formats d (fmt_elem e d)
  unfolding fmt_elem label_elem fmt_address fmt_siacoins fmt_siafunds
  fmt_elem-Formats sc_output d shown le = elim (Bool-cases (d.ctx.elem_part == 0)) [
    | inl first ↦ simp first (texts-Formats d _ _ _ (first_part d first))
    | inr second ↦ simp second (texts-Formats d _ _ 0 (omega arith))
  ]
  fmt_elem-Formats sf_output d shown le = elim (Bool-cases (d.ctx.elem_part == 0)) [
    | inl first ↦ simp first (texts-Formats d _ _ _ (first_part d first))
    | inr second ↦ simp second (texts-Formats d _ _ 0 (omega arith))
  ]
  fmt_elem-Formats miner_fee d shown le = texts-Formats d _ _ 0 (omega arith)
  fmt_elem-Formats _ d shown le = absurd shown

-- A session that has begun.
pub record IsSigning {C : Type 0} (key : ℕ) (d : Device C) : Type 0 where
  pub initialized : d.ctx.initialized ≡ true
  pub sign : d.ctx.sign ≡ true
  pub key_index : d.ctx.key_index ≡ key
  pub room : 66 ≤ length d.apdu

pub Formats-IsSigning :
    {C : Type 0} (key : ℕ) (d d' : Device C) → Formats d d' → IsSigning key d → IsSigning key d'
Formats-IsSigning key d d' f h = record {
  initialized = f.same_initialized ∙ h.initialized;
  sign = f.same_sign ∙ h.sign;
  key_index = f.same_key ∙ h.key_index;
  room = rw f.same_apdu h.room;
}
