-- ===== src/Calc/Amount.antt =====
-- The amount on the screen (src/txn.c, src/calcTxnHash.c): from the bytes of the transaction to the
-- text in siacoins.
use app_sia_x.Base.{
  write_whole, ℕ, ◌-◌, ◌≤◌, ◌≡◌, refl, arith, ap, ◌∙◌, sym, [], ◌∷◌, ◌++◌, Bytes, length,
  length-write, drop, replicate, u8, ok, All, IsByte, be_value,
}
use app_sia_x.Sdk.{Sdk, IsSdk}
use app_sia_x.Decimal.{IsDecimal}
use app_sia_x.Currency.Cur2Dec.{cur2dec}
use app_sia_x.Currency.Cur2Dec.Exact.{cur2dec_exact}
use app_sia_x.FormatSc.{format_sc}
use app_sia_x.FormatSc.Point.{text_of}
use app_sia_x.FormatSc.Exact.{InSiacoins, format_sc_exact}
use app_sia_x.Txn.Read.{show_value}
use app_sia_x.Txn.Encoding.Shown.{show_value-runs}
use app_sia_x.Device.Contexts.{CalcTxnHashContext}
use app_sia_x.Calc.Format.{fmt_siacoins}

-- The context once `readCurrency` has filled `outVal`.
abbrev pub shown_value : {C : Type 0} → Sdk C → CalcTxnHashContext C → CalcTxnHashContext C
shown_value sdk ctx = record ctx { txn = (show_value sdk ctx.txn).1 }

module _ {C : Type 0} (sdk : Sdk C) (laws : IsSdk sdk) where
  -- If the SDK reads words as documented and both strings have their 128 bytes: when the bytes in
  -- front of `pos` and behind it are a currency value of 1 to 18 bytes with its length prefix, the
  -- text that `readCurrency` and `fmtTxnElem` prepare for the screen is that value, in siacoins.
  pub fmt_siacoins_exact :
      (ctx : CalcTxnHashContext C) (v rest : Bytes)
      → drop (ctx.txn.pos - 8) ctx.txn.buf ≡ length v ∷ replicate 7 0 ++ v ++ rest
      → 1 ≤ length v
      → length v ≤ 18
      → All IsByte v
      → length ctx.txn.out_val ≡ 128
      → length ctx.full_str ≡ 128
      → (show_value sdk ctx.txn).0 ≡ ok tt
        × (s : Bytes) × (whole : Bytes) × (frac : Bytes) × (n : ℕ) × IsDecimal (be_value v) s
        × InSiacoins s whole frac ((fmt_siacoins (shown_value sdk ctx)).full_str, n)
  unfolding fmt_siacoins
  fmt_siacoins_exact ctx v rest bin pos small bytes hv hf =
      let (s, runs, decimal, short) =
        cur2dec_exact sdk laws ctx.txn.out_val v rest pos small bytes in
      let text = text_of ctx.txn.out_val s in
      let size : length text ≡ 128 = length-write ctx.txn.out_val 0 (s ++ 0 ∷ []) ∙ hv in
      let len : u8 (length s) ≡ length s = omega arith in
      let (whole, frac, h) = format_sc_exact ctx.txn.out_val s decimal.digits (omega arith) in
      let read =
        show_value-runs sdk ctx.txn text (length s) (ap (cur2dec sdk ctx.txn.out_val) bin ∙ runs) in
      rw (read, len, write_whole ctx.full_str text (size ∙ sym hf))
        (refl, s, whole, frac, (format_sc text (length s)).1, decimal, h)
