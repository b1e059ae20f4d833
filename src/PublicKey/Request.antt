-- ===== src/PublicKey/Request.antt =====
-- The getPublicKey command (src/getPublicKey.c): what is asked, and what an approval sends.
use app_sia_x.Base.{
  ℕ, ◌+◌, ◌^◌, ◌≤◌, ◌<◌, ◌≡◌, refl, ap, ◌∙◌, arith, Bool, true, false, [], ◌∷◌, ◌++◌, if◌then◌else◌,
  Bytes, All, IsByte, le_value-lt_word, codes, length, length-append, length-take, length-write,
  take, write, write_after, write_tail_at, take-write_start, ok, ◌==◌,
}
use app_sia_x.Sdk.{Sdk, IsSdk}
use app_sia_x.Codes.{sw_ok}
use app_sia_x.Bin2Dec.{bin2dec}
use app_sia_x.Decimal.{IsDecimal}
use app_sia_x.Bin2Dec.Exact.{bin2dec_exact}
use app_sia_x.Keys.{KeySdk, derive_sia_keypair}
use app_sia_x.Device.Contexts.{
  GetPublicKeyContext, IsGetPublicKeyContext, IsUnion, Layout, IsLayout,
}
use app_sia_x.Device.{approve_pk, compare_pk, Device, show_flow, ui_idle, reply_later}
use app_sia_x.Device.Replies.{word_bytes}
use app_sia_x.PublicKey.{
  name_pk, ask_address, ask_pubkey, read_pk_request, handle_get_public_key, touch_pk_ok,
}
use app_sia_x.PublicKey.Reply.{compared, pk_response, touch_pk_ok_lem}

-- The text of the approval screen for a numeral.
abbrev question_mark : Bytes
question_mark = codes "?" ++ 0 ∷ []

abbrev pub named : Bytes → Bytes → Bytes
named words s = words ++ (s ++ question_mark)

named_text :
    (a words : Bytes) (off n : ℕ) (s : Bytes)
    → length words ≡ off
    → bin2dec (write a 0 words) off n ≡ (write (write a 0 words) off (s ++ 0 ∷ []), length s)
    → (let (b, k) = bin2dec (write a 0 words) off n in write b (off + k) question_mark)
      ≡ write a 0 (named words s)
named_text a words off n s e run =
    let start : off ≡ 0 + length words = omega (arith, e) in
    ap (λ ((b, k) : Bytes × ℕ). write b (off + k) question_mark) run
    ∙ write_tail_at (write a 0 words) off s (0 ∷ []) question_mark (omega arith)
    ∙ ap (λ n. write (write a 0 words) n (s ++ question_mark)) start
    ∙ write_after a 0 words (s ++ question_mark)

-- A question about a key index, and the context that it leaves.
record Asks (words : Bytes) (index : ℕ) (gen_addr : Bool) (after : GetPublicKeyContext)
    : Type 0 where
  numeral : Bytes
  decimal : IsDecimal index numeral
  shown : take (length (named words numeral)) after.key_str ≡ named words numeral
  same_key : after.key_index ≡ index
  same_gen_addr : after.gen_addr ≡ gen_addr
  sizes : IsGetPublicKeyContext after

name_pk-Asks :
    (words : Bytes) (off : ℕ) (k : GetPublicKeyContext)
    → length words ≡ off
    → off ≤ 10
    → IsGetPublicKeyContext k
    → Asks words k.key_index k.gen_addr (name_pk words off k)
unfolding name_pk
name_pk-Asks words off k e short sizes =
    let (s, run, decimal, few) =
      bin2dec_exact (write k.key_str 0 words) off k.key_index (omega (arith, sizes.key_range)) in
    let text = named_text k.key_str words off k.key_index s e run in
    let size : length (named words s) ≤ length k.key_str = omega (
      arith,
      few,
      sizes.key_size,
      length-append words (s ++ question_mark),
      length-append s question_mark,
    ) in
    record {
      numeral = s;
      decimal = decimal;
      shown =
          ap (take (length (named words s))) text ∙ take-write_start k.key_str (named words s) size;
      same_key = refl;
      same_gen_addr = refl;
      sizes = record {
        key_range = sizes.key_range;
        type_size = sizes.type_size;
        key_size = ap length text ∙ length-write k.key_str 0 (named words s) ∙ sizes.key_size;
        full_size = sizes.full_size;
      };
    }

-- What the approval screen says in front of the key's number.
abbrev pub asked_words : ℕ → Bytes
asked_words p2 = if p2 == 0 then codes "from Key #" else codes "Key #"

if-Asks :
    (b : Bool) {v w : Bytes} {index : ℕ} {gen_addr : Bool} {x y : GetPublicKeyContext}
    → Asks v index gen_addr x
    → Asks w index gen_addr y
    → Asks (if b then v else w) index gen_addr (if b then x else y)
if-Asks true p q = p
if-Asks false p q = q

module _ {C : Type 0} (sdk : Sdk C) (laws : IsSdk sdk) where
  key_range :
      (buffer : Bytes)
      → 4 ≤ length buffer
      → All IsByte (take 4 buffer)
      → sdk.u4_le buffer 0 < 2 ^ 32
  key_range buffer long bytes =
      rw (laws.u4_le_reads buffer 0 (omega arith))
        (le_value-lt_word (take 4 buffer) (omega (arith, length-take {0} 4 buffer)) bytes)

  read_pk_request-Asks :
      (p2 : ℕ) (buffer : Bytes) (k : GetPublicKeyContext)
      → sdk.u4_le buffer 0 < 2 ^ 32
      → IsGetPublicKeyContext k
      → Asks (asked_words p2) (sdk.u4_le buffer 0) (p2 == 0) (read_pk_request sdk p2 buffer k)
  unfolding read_pk_request ask_address ask_pubkey
  read_pk_request-Asks p2 buffer k range sizes =
      let typed : (text : Bytes)
          → IsGetPublicKeyContext (record k {
            key_index = sdk.u4_le buffer 0;
            gen_addr = p2 == 0;
            type_str = write k.type_str 0 text;
          }) =
        λ text. record {
          key_range = range;
          type_size = length-write k.type_str 0 text ∙ sizes.type_size;
          key_size = sizes.key_size;
          full_size = sizes.full_size;
        } in
      if-Asks (p2 == 0) (name_pk-Asks (codes "from Key #") 10 _ refl (omega arith) (typed _))
        (name_pk-Asks (codes "Key #") 5 _ refl (omega arith) (typed _))

  module _ {K : Type 0} (layout : Layout C) (fits : IsLayout layout) (keys : KeySdk K) where
    abbrev asking : ℕ → Bytes → Device C → Device C
    asking p2 buffer d =
        let k = read_pk_request sdk p2 buffer (layout.as_public_key d.ctx) in
        reply_later
          (show_flow approve_pk (ui_idle (record d { ctx = layout.put_public_key k d.ctx })))

    accepted :
        (p2 : ℕ) (buffer : Bytes) (d : Device C)
        → p2 ≤ 1
        → handle_get_public_key layout sdk p2 buffer d ≡ (ok tt, asking p2 buffer d)
    unfolding handle_get_public_key
    accepted p2 buffer d h = ground arith

    -- A getPublicKey request that asks for the address or for the key shows the words and the
    -- decimal number of the key index that it names, and sends nothing. If the user approves before
    -- another packet comes, the response is the 32 bytes of the public key of that index, the 76
    -- characters of its standard address, and the status word SW_OK, and the screen then shows,
    -- NUL-terminated, what was asked for: the same address, or the same key in hexadecimal. This
    -- holds for an SDK and a layout as documented, a buffer of 110 bytes at least, a request that
    -- starts with four bytes, and whatever the local array of the address computation held.
    pub get_public_key_consent :
        (p2 : ℕ) (buffer junk : Bytes) (d : Device C)
        → p2 ≤ 1
        → 4 ≤ length buffer
        → All IsByte (take 4 buffer)
        → length junk ≡ 65
        → IsUnion d.ctx
        → 110 ≤ length d.apdu
        → let (r, asking) = handle_get_public_key layout sdk p2 buffer d in
          let index = sdk.u4_le buffer 0 in
          let w = (derive_sia_keypair keys index).1 in
          let shown = compared sdk laws (p2 == 0) w in
          let done = touch_pk_ok layout sdk keys junk asking in
          (s : Bytes) × IsDecimal index s
          × (r ≡ ok tt)
          × (asking.screen ≡ approve_pk)
          × (asking.sent ≡ d.sent)
          × (take (length (named (asked_words p2) s)) (layout.as_public_key asking.ctx).key_str
              ≡ named (asked_words p2) s)
          × (done.sent ≡ d.sent ++ (pk_response sdk laws w ++ word_bytes sw_ok) ∷ [])
          × (done.screen ≡ compare_pk)
          × (take (length shown + 1) (layout.as_public_key done.ctx).full_str ≡ shown ++ 0 ∷ [])
    unfolding reply_later show_flow ui_idle read_pk_request
    get_public_key_consent p2 buffer junk d h long bytes size union room =
        let view = layout.as_public_key d.ctx in
        let k = read_pk_request sdk p2 buffer view in
        let asks =
          read_pk_request-Asks p2 buffer view (key_range buffer long bytes)
            (fits.typed_public_key d.ctx union) in
        let back = fits.reads_public_key k d.ctx asks.sizes union in
        let spares = fits.spares_public_key k d.ctx in
        let union' : IsUnion (asking p2 buffer d).ctx = record {
          key_range = spares.same_key_range union.key_range;
          whole_buf = spares.same_buf_size ∙ union.whole_buf;
        } in
        let (sent, screen, text) =
          rw (back, asks.same_key, asks.same_gen_addr) at
            (touch_pk_ok_lem sdk laws layout fits keys junk (asking p2 buffer d) size union'
              room) in
        let n = length (named (asked_words p2) asks.numeral) in
        rw (accepted p2 buffer d h) (
          asks.numeral,
          asks.decimal,
          refl,
          refl,
          refl,
          ap (λ k. take n k.key_str) back ∙ asks.shown,
          sent,
          screen,
          text,
        )
