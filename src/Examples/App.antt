-- ===== src/Examples/App.antt =====
-- The main loop and the signHash and getPublicKey commands (src/main.c, src/signHash.c,
-- src/getPublicKey.c) at concrete inputs.
use app_sia_x.Base.{
  ◌==◌, true, false, none, ℕ, ◌+◌, ◌*◌, ◌%◌, ◌^◌, ◌≡◌, ◌≢◌, refl, arith, ◌==◌, stuck, ok, [], ◌∷◌,
  ◌++◌, Bytes, replicate, length, length-append, take, drop, write, le_value, be_value, byte_at,
  codes,
}
use app_sia_x.Codes.{sw_ok}
use app_sia_x.Decimal.{IsDecimal}
use app_sia_x.Bin2Hex.RoundTrip.{unhex}
use app_sia_x.Txn.Decode.{txn_init}
use app_sia_x.Keys.{IsKeySdk, derive_sia_keypair, derive_and_sign, extract_pubkey_bytes}
use app_sia_x.Keys.Pubkey.{extract_pubkey_bytes_lem}
use app_sia_x.Device.Contexts.{IsUnion}
use app_sia_x.Device.{approve_pk, compare_pk, approve_hash, Device}
use app_sia_x.Device.Replies.{word_bytes}
use app_sia_x.Screens.{press_step}
use app_sia_x.SignHash.{handle_sign_hash, touch_hash_ok}
use app_sia_x.SignHash.Consent.{requested_hash, sign_hash_consent}
use app_sia_x.PublicKey.{handle_get_public_key, touch_pk_ok}
use app_sia_x.PublicKey.Reply.{compared, pk_response}
use app_sia_x.PublicKey.Request.{asked_words, named, get_public_key_consent}
use app_sia_x.Main.{cla, lookup_handler, receive, sia_round, restart}
use app_sia_x.Main.Refusals.{sia_round-refuses}
use app_sia_x.Main.Reach.{Waiting, booted, after_packet, after_press, app_ends}
use app_sia_x.Examples.Toy.{toy, toy-IsSdk}
use app_sia_x.Examples.Union.{toy_layout, toy_layout-IsLayout}
use app_sia_x.Examples.Command.{toy_keys, boot_device}

pub toy_keys-IsKeySdk : IsKeySdk toy_keys
toy_keys-IsKeySdk = record {
  signature_size = λ k hash e. omega (arith, length-append hash hash, e);
}

abbrev idle : Device Bytes
idle = boot_device

idle-IsUnion : IsUnion idle.ctx
unfolding txn_init
idle-IsUnion = record { key_range = omega arith; whole_buf = refl }

-- A request for key 5 and a hash of sevens.
abbrev request : Bytes
request = 5 ∷ 0 ∷ 0 ∷ 0 ∷ replicate 32 7

sign_hash_consent_example :
    let asked = handle_sign_hash toy toy_layout request idle in
    let hash = unhex (toy_layout.as_sign_hash asked.ctx).hex_hash in
    (asked.screen ≡ approve_hash)
    × (asked.sent ≡ idle.sent)
    × (hash ≡ requested_hash request)
    × ((touch_hash_ok toy_layout toy_keys asked).sent
        ≡ idle.sent
          ++ (derive_and_sign toy_keys (toy.u4_le request 0) hash ++ word_bytes sw_ok) ∷ [])
sign_hash_consent_example =
    sign_hash_consent toy toy-IsSdk toy_layout toy_layout-IsLayout toy_keys toy_keys-IsKeySdk
      request idle (omega arith) (omega arith) (omega arith) idle-IsUnion (omega arith)

get_public_key_consent_example :
    let (r, asking) = handle_get_public_key toy_layout toy 1 request idle in
    let index = toy.u4_le request 0 in
    let w = (derive_sia_keypair toy_keys index).1 in
    let shown = compared toy toy-IsSdk (1 == 0) w in
    let done = touch_pk_ok toy_layout toy toy_keys (replicate 65 9) asking in
    (s : Bytes) × IsDecimal index s
    × (r ≡ ok tt)
    × (asking.screen ≡ approve_pk)
    × (asking.sent ≡ idle.sent)
    × (take (length (named (asked_words 1) s)) (toy_layout.as_public_key asking.ctx).key_str
        ≡ named (asked_words 1) s)
    × (done.sent ≡ idle.sent ++ (pk_response toy toy-IsSdk w ++ word_bytes sw_ok) ∷ [])
    × (done.screen ≡ compare_pk)
    × (take (length shown + 1) (toy_layout.as_public_key done.ctx).full_str ≡ shown ++ 0 ∷ [])
get_public_key_consent_example =
    get_public_key_consent toy toy-IsSdk toy_layout toy_layout-IsLayout toy_keys 1 request
      (replicate 65 9) idle (omega arith) (omega arith) (omega arith) refl idle-IsUnion
      (omega arith)

-- A point with the abscissa 3 and the ordinate 2.
abbrev point : Bytes
point = 4 ∷ replicate 31 0 ++ (3 ∷ replicate 31 0 ++ (2 ∷ []))

extract_pubkey_bytes_lem_example :
    (key : Bytes) × (extract_pubkey_bytes (replicate 40 9) 4 point ≡ write (replicate 40 9) 4 key)
    × (length key ≡ 32)
    × (le_value key ≡ be_value (take 32 (drop 33 point)) + 2 ^ 255 * (byte_at point 32 % 2))
extract_pubkey_bytes_lem_example =
    extract_pubkey_bytes_lem (replicate 40 9) 4 point (omega arith) refl (omega arith)

-- A getVersion packet, and then a press of "About".
abbrev get_version_packet : Bytes
get_version_packet = 0xE0 ∷ 1 ∷ 0 ∷ 0 ∷ 0 ∷ []

abbrev answered : Device Bytes
answered =
    let after = (sia_round toy_layout toy (codes "0.5.0") get_version_packet (restart idle)).1 in
    (press_step toy_layout (codes "0.5.0") toy toy_keys [] 1 after).1

answered-Waiting : Waiting toy_layout toy_layout-IsLayout toy toy_keys (codes "0.5.0") answered
answered-Waiting = after_press 1 [] (after_packet get_version_packet (booted idle))

app_ends_example :
    ((packet : Bytes) → (sia_round toy_layout toy (codes "0.5.0") packet answered).0 ≢ stuck)
    × ((i : ℕ) (junk : Bytes)
        → (press_step toy_layout (codes "0.5.0") toy toy_keys junk i answered).0 ≢ stuck)
app_ends_example =
    app_ends toy_layout toy_layout-IsLayout toy toy_keys (codes "0.5.0") answered answered-Waiting

-- Instruction 3 is no command.
abbrev unknown_packet : Bytes
unknown_packet = 0xE0 ∷ 3 ∷ 0 ∷ 0 ∷ 0 ∷ []

sia_round-refuses_example :
    ((byte_at (receive unknown_packet idle).apdu 0 == cla) ≡ false
      → (sia_round toy_layout toy (codes "0.5.0") unknown_packet idle).1.sent
        ≡ idle.sent ++ (0x6E ∷ 0x00 ∷ []) ∷ [])
    × ((byte_at (receive unknown_packet idle).apdu 0 == cla) ≡ true
        → lookup_handler (byte_at (receive unknown_packet idle).apdu 1) ≡ none
        → (sia_round toy_layout toy (codes "0.5.0") unknown_packet idle).1.sent
          ≡ idle.sent ++ (0x6D ∷ 0x00 ∷ []) ∷ [])
sia_round-refuses_example =
    sia_round-refuses toy_layout toy (codes "0.5.0") unknown_packet idle (omega arith) (omega arith)
