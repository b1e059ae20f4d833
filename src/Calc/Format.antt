-- ===== src/Calc/Format.antt =====
-- `fmtTxnElem` (src/calcTxnHash.c): the texts for the current element.
use app_sia_x.Base.{ℕ, ◌+◌, [], ◌∷◌, ◌++◌, Bytes, ◌==◌, if◌then◌else◌, u8, codes, write}
use app_sia_x.Codes.{sw_developer_err}
use app_sia_x.Bin2Dec.{bin2dec}
use app_sia_x.FormatSc.{format_sc}
use app_sia_x.Txn.State.{ElemType, sc_output, sf_output, miner_fee}
use app_sia_x.Device.Contexts.{CalcTxnHashContext}
use app_sia_x.Device.{Device, io_exchange_with_code, ui_idle}

module _ {C : Type 0} where
  -- The words at the start of `labelStr` and the number of the element at an offset.
  unfoldable pub label_elem : Bytes → ℕ → CalcTxnHashContext C → CalcTxnHashContext C
  label_elem words off ctx = record ctx {
    label_str = (bin2dec (write ctx.label_str 0 words) off ctx.txn.slice_index).0;
  }

  unfoldable pub fmt_address : CalcTxnHashContext C → CalcTxnHashContext C
  fmt_address ctx = record ctx {
    full_str = write ctx.full_str 0 ctx.txn.out_addr;
    elem_part = u8 (ctx.elem_part + 1);
  }

  unfoldable pub fmt_siacoins : CalcTxnHashContext C → CalcTxnHashContext C
  fmt_siacoins ctx = record ctx {
    full_str = (format_sc (write ctx.full_str 0 ctx.txn.out_val) ctx.txn.val_len).0;
    elem_part = 0;
  }

  unfoldable pub fmt_siafunds : CalcTxnHashContext C → CalcTxnHashContext C
  fmt_siafunds ctx = record ctx {
    full_str = write (write ctx.full_str 0 ctx.txn.out_val) ctx.txn.val_len (codes " SF" ++ 0 ∷ []);
    elem_part = 0;
  }

  -- The `switch` on the element type.
  unfoldable pub fmt_elem : ElemType → Device C → Device C
  fmt_elem sc_output d =
      let ctx = label_elem (codes "SC Output #") 16 d.ctx in
      record d { ctx = if ctx.elem_part == 0 then fmt_address ctx else fmt_siacoins ctx }
  fmt_elem sf_output d =
      let ctx = label_elem (codes "SF Output #") 16 d.ctx in
      record d { ctx = if ctx.elem_part == 0 then fmt_address ctx else fmt_siafunds ctx }
  fmt_elem miner_fee d = record d { ctx = fmt_siacoins (label_elem (codes "Miner Fee #") 11 d.ctx) }
  fmt_elem _ d = ui_idle (io_exchange_with_code sw_developer_err 0 d)

  unfoldable pub fmt_txn_elem : Device C → Device C
  fmt_txn_elem d = fmt_elem d.ctx.txn.elem_type d
