-- ===== src/Txn/Encoding/Shown.antt =====
-- The strings for display (src/txn.c): what they say, what `readCurrency` leaves in them, and the
-- label of a fee.
use app_sia_x.Base.{
  ℕ, ◌+◌, ◌-◌, ◌≤◌, ◌<◌, ◌≡◌, refl, sym, ap, ◌∙◌, arith, true, [], ◌∷◌, ◌++◌, append_assoc, Bytes,
  codes, u8, length, length-append, length-write, take, drop, take-append-drop, take-write_start,
  write, replicate, be_value, ok, throw, stuck, modify, continue,
}
use native.Mathlib.Decide.{dec_le}
use app_sia_x.Sdk.{Sdk, IsSdk}
use app_sia_x.Blake2b.{blake2b}
use app_sia_x.Bin2Hex.RoundTrip.{hex_text}
use app_sia_x.Decimal.{IsDecimal}
use app_sia_x.Currency.Cur2Dec.{cur2dec}
use app_sia_x.Currency.Cur2Dec.Exact.{cur2dec_exact}
use app_sia_x.Codes.{partial}
use app_sia_x.Txn.State.{TxnState}
use app_sia_x.Txn.Read.{seek, read_int, show_value, read_currency}
use app_sia_x.Txn.Decode.{label_fee}
use app_sia_x.Txn.Readers.{need_at_least_enough, need_at_least_short, seek_enough}
use app_sia_x.Txn.Advance.{IsValid, IsValid-IsSeekable}
use app_sia_x.Txn.ReadInt.{read_int_short}
use app_sia_x.Txn.Encoding.{u64_bytes, prefixed, IsValue}
use app_sia_x.Txn.Encoding.Words.{length-le_bytes, u64_bytes_small}
use app_sia_x.Txn.Encoding.Parses.{unread, Parsed, whole, short, Parses, Kept-refl, seek-Kept}
use app_sia_x.Txn.Encoding.Fields.{buffered, read_int_run}

pub show_value-runs :
    {C : Type 0} (sdk : Sdk C) (t : TxnState C) (out_val : Bytes) (len : ℕ)
    → cur2dec sdk t.out_val (drop (t.pos - 8) t.buf) ≡ ok (out_val, len)
    → show_value sdk t ≡ (ok tt, record t { out_val = out_val; val_len = u8 len })
unfolding show_value
show_value-runs sdk t out_val len e =
    ap
      (λ r. elim r [
        | ok (out_val, len) ↦ (ok tt, record t { out_val = out_val; val_len = u8 len })
        | throw e ↦ (throw e, t)
        | stuck ↦ (stuck, t)
      ])
      e

-- The display strings of the decoder.
pub record Screen : Type 0 where
  pub out_val : Bytes
  pub val_len : ℕ
  pub out_addr : Bytes

abbrev pub screen_of : {C : Type 0} → TxnState C → Screen
screen_of t = record { out_val = t.out_val; val_len = t.val_len; out_addr = t.out_addr }

-- The string is the decimal numeral of the big-endian number.
pub record Amount (value : Bytes) (s : Screen) : Type 0 where
  pub text : Bytes
  pub decimal : IsDecimal (be_value value) text
  pub string : take (length text + 1) s.out_val ≡ text ++ 0 ∷ []
  pub counted : s.val_len ≡ length text

-- A hash in hexadecimal, with its checksum and a NUL byte.
abbrev pub address_string : {C : Type 0} → Sdk C → Bytes → Bytes
address_string sdk hash = hex_text hash ++ (hex_text (blake2b sdk 6 hash) ++ 0 ∷ [])

abbrev pub Address : {C : Type 0} → Sdk C → Bytes → Screen → Type 0
Address sdk hash s = take 77 s.out_addr ≡ address_string sdk hash

abbrev pub FeeLabel : Screen → Type 0
FeeLabel s = take 12 s.out_addr ≡ codes "[Miner Fee]" ++ 0 ∷ []

-- The two arrays have their sizes.
abbrev pub IsSized : Screen → Type 0
IsSized s = (length s.out_val ≡ 128) × (length s.out_addr ≡ 77)

module _ {C : Type 0} where
  pub record ShowsValue (value : Bytes) (t u : TxnState C) : Type 0 where
    pub same_out_addr : u.out_addr ≡ t.out_addr
    pub amount : length t.out_val ≡ 128 → Amount value (screen_of u)

  pub record ShowsAddress (sdk : Sdk C) (hash : Bytes) (t u : TxnState C) : Type 0 where
    pub same_out_val : u.out_val ≡ t.out_val
    pub same_val_len : u.val_len ≡ t.val_len
    pub address : length t.out_addr ≡ 77 → Address sdk hash (screen_of u)

module _ {C : Type 0} (sdk : Sdk C) (laws : IsSdk sdk) where
  module _ (t : TxnState C) (v future rest : Bytes) (h : IsValid t)
      (e : unread t ++ future ≡ prefixed v ++ rest) (is : IsValue v) where
    length-prefixed : length (prefixed v) ≡ 8 + length v
    length-prefixed =
        omega (arith, length-append (u64_bytes (length v)) v, length-le_bytes 8 (length v))

    abbrev behind_prefix : TxnState C
    behind_prefix = record t { pos = t.pos + 8 }

    seekable : t.pos + 8 ≤ t.buflen → IsValid behind_prefix
    seekable fits = record { cap = h.cap; fits = h.fits; seeked = fits; counted = h.counted }

    prefix_read : t.pos + 8 ≤ t.buflen → read_int sdk t ≡ (ok (length v), behind_prefix)
    prefix_read fits =
        read_int_run sdk laws (length v) t future (v ++ rest) (omega (arith, is.small)) h
          (e ∙ append_assoc (u64_bytes (length v)) v rest) fits

    -- The argument of `cur2dec`.
    value_front :
        t.pos + (8 + length v) ≤ t.buflen
        → drop (t.pos + 8 - 8) t.buf
          ≡ length v ∷ replicate 7 0 ++ v ++ drop (8 + length v) (drop t.pos t.buf)
    value_front fits =
        let back : t.pos + 8 - 8 ≡ t.pos = omega arith in
        let front = buffered t future (prefixed v) rest h e (omega (arith, length-prefixed)) in
        ap (λ p. drop p t.buf) back
        ∙ sym (take-append-drop (length (prefixed v)) (drop t.pos t.buf))
        ∙ ap (λ b. b ++ drop (length (prefixed v)) (drop t.pos t.buf)) front
        ∙ ap (λ n. prefixed v ++ drop n (drop t.pos t.buf)) length-prefixed
        ∙ ap (λ b. (b ++ v) ++ drop (8 + length v) (drop t.pos t.buf))
            (u64_bytes_small (length v) (omega (arith, is.small)))

    shown :
        t.pos + (8 + length v) ≤ t.buflen
        → Parsed (length (prefixed v)) tt (ShowsValue v) t (read_currency sdk true t)
    unfolding read_currency
    shown fits =
        let (s, runs, decimal, few) =
          cur2dec_exact sdk laws t.out_val v (drop (8 + length v) (drop t.pos t.buf)) is.positive
            is.small is.bytes in
        let text = s ++ 0 ∷ [] in
        let out_val = write t.out_val 0 text in
        let u = record behind_prefix { out_val = out_val; val_len = u8 (length s) } in
        let w = record u { pos = t.pos + 8 + length v } in
        let valid = IsValid-IsSeekable (seekable (omega arith)) in
        let run : show_value sdk behind_prefix ≡ (ok tt, u) =
          show_value-runs sdk behind_prefix out_val (length s)
            (ap (cur2dec sdk t.out_val) (value_front fits) ∙ runs) in
        let sought : seek (length v) u ≡ (ok tt, w) =
          seek_enough (length v) u (record { seeked = omega arith; fits = valid.fits })
            (omega arith) in
        let all : read_currency sdk true t ≡ (ok tt, w) =
          ap (continue _) (prefix_read (omega arith))
          ∙ ap (continue _) (need_at_least_enough (length v) behind_prefix valid (omega arith))
          ∙ ap (continue _) run
          ∙ sought in
        let count : length text ≡ length s + 1 = omega (arith, length-append s (0 ∷ [])) in
        rw all (
          whole w (omega (arith, length-prefixed))
            (record {
              keeps = ground arith;
              same_val_size = length-write t.out_val 0 text;
              same_addr_size = refl;
            })
            (omega (arith, length-prefixed))
            (record {
              same_out_addr = refl;
              amount = λ cap. record {
                text = s;
                decimal = decimal;
                string =
                    ap (λ n. take n out_val) (sym count)
                    ∙ take-write_start t.out_val text (omega (arith, count, cap, few));
                counted = omega (arith, few);
              };
            }))

    cut_short :
        t.buflen < t.pos + (8 + length v)
        → Parsed (length (prefixed v)) tt (ShowsValue v) t (read_currency sdk true t)
    unfolding read_currency
    cut_short few = elim (dec_le (t.pos + 8) t.buflen) [
      | yes fits ↦
          let valid = IsValid-IsSeekable (seekable fits) in
          let all : read_currency sdk true t ≡ (throw partial, behind_prefix) =
            ap (continue _) (prefix_read fits)
            ∙ ap (continue _) (need_at_least_short (length v) behind_prefix valid (omega arith)) in
          rw all (
            short behind_prefix (omega (arith, length-prefixed))
              (seek-Kept t (t.pos + 8) (omega arith) fits))
      | no none ↦
          let all : read_currency sdk true t ≡ (throw partial, t) =
            ap (continue _) (read_int_short sdk laws t h (omega arith)) in
          rw all (short t (omega (arith, length-prefixed)) (Kept-refl t h))
    ]

  pub read_currency_shown-Parses :
      (v : Bytes) → IsValue v → Parses (read_currency sdk true) (prefixed v) tt (ShowsValue v)
  read_currency_shown-Parses v is = record {
    run = λ t future rest h e. elim (dec_le (t.pos + (8 + length v)) t.buflen) [
      | yes fits ↦ shown t v future rest h e is fits
      | no few ↦ cut_short t v future rest h e is (omega arith)
    ];
  }

module _ {C : Type 0} where
  pub record ShowsLabel (t u : TxnState C) : Type 0 where
    pub same_out_val : u.out_val ≡ t.out_val
    pub same_val_len : u.val_len ≡ t.val_len
    pub label : length t.out_addr ≡ 77 → FeeLabel (screen_of u)

  pub same-Amount :
      (value : Bytes) (t u : TxnState C)
      → u.out_val ≡ t.out_val
      → u.val_len ≡ t.val_len
      → Amount value (screen_of t)
      → Amount value (screen_of u)
  same-Amount value t u e e' h = record {
    text = h.text;
    decimal = h.decimal;
    string = ap (take (length h.text + 1)) e ∙ h.string;
    counted = e' ∙ h.counted;
  }

  pub label_fee-Parses : (sdk : Sdk C) → Parses (modify (label_fee sdk)) [] tt ShowsLabel
  unfolding label_fee
  label_fee-Parses sdk = record {
    run = λ t future rest h e.
        let text = codes "[Miner Fee]" ++ 0 ∷ [] in
        whole (label_fee sdk t) (omega (arith, h.seeked))
          (record {
            keeps = ground arith;
            same_val_size = refl;
            same_addr_size = length-write t.out_addr 0 text;
          })
          (omega arith)
          (record {
            same_out_val = refl;
            same_val_len = refl;
            label = λ cap. take-write_start t.out_addr text (omega arith);
          });
  }
