-- ===== src/Examples/Command.antt =====
-- The calcTxnHash command, its texts and addresses (src/calcTxnHash.c, src/sia.c) at concrete
-- inputs.
use app_sia_x.Base.{
  be_value, ok, ℕ, ◌+◌, ◌≡◌, ◌⊎◌, ◌≢◌, refl, arith, false, [], ◌∷◌, ◌++◌, Bytes, codes, stuck,
  throw, replicate, take, length, All,
}
use app_sia_x.Codes.{sw_ok, sw_invalid_param, sw_improper_init}
use app_sia_x.Decimal.{IsDigit, IsDecimal}
use app_sia_x.Bin2Hex.{bin2hex}
use app_sia_x.Blake2b.{blake2b}
use app_sia_x.Txn.Decode.{txn_init}
use app_sia_x.FormatSc.{make_room, trim_zeros, format_sc}
use app_sia_x.FormatSc.Point.{text_of}
use app_sia_x.FormatSc.Exact.{InSiacoins, format_sc_exact}
use app_sia_x.Keys.{KeySdk, pubkey_to_sia_address}
use app_sia_x.Keys.Address.{standard_root, pubkey_to_sia_address_lem}
use app_sia_x.Bin2Hex.RoundTrip.{unhex}
use app_sia_x.Device.Replies.{word_bytes}
use app_sia_x.Calc.HashReply.{send_hash_lem}
use app_sia_x.Device.Contexts.{CalcTxnHashContext}
use app_sia_x.Device.{compare_hash, menu_main, show_txn_elem, Device}
use app_sia_x.Calc.Handler.{send_hash, handle_calc_txn_hash, elem_button}
use app_sia_x.Txn.Read.{show_value}
use app_sia_x.Calc.Format.{fmt_siacoins}
use app_sia_x.Calc.Amount.{shown_value, fmt_siacoins_exact}
use app_sia_x.Calc.Session.{Reachable, start, after, packet, session_ends}
use app_sia_x.Calc.Refusal.{IsUnknown, IsOutOfTurn, handle_calc_txn_hash-refuses}
use app_sia_x.Examples.Toy.{toy, toy-IsSdk}

abbrev pub toy_keys : KeySdk ℕ
toy_keys = record {
  derive_node = λ path. path;
  init_private_key = length;
  generate_pair = λ k. replicate 65 k;
  eddsa_sign = λ k hash. hash ++ hash;
}

abbrev pub boot_device : Device Bytes
boot_device = record {
  ctx = record {
    key_index = 0;
    sign = false;
    elem_part = 0;
    txn = txn_init toy 0;
    label_str = replicate 40 0;
    full_str = replicate 128 0;
    initialized = false;
  };
  apdu = replicate 260 0;
  asynch = false;
  sent = [];
  screen = menu_main;
}

-- A first packet with key 0, signature 0, no input and one output that is not complete.
abbrev first : Bytes
first = replicate 6 0 ++ (replicate 8 0 ++ (1 ∷ replicate 7 0))

abbrev receiving : Device Bytes
receiving = (handle_calc_txn_hash toy 0 1 first 22 boot_device).1

receiving-Reachable : Reachable toy toy_keys receiving
receiving-Reachable = after (start boot_device refl refl) (packet 0 1 first 22)

session_ends_example :
    ((p1 p2 : ℕ) (buf : Bytes) (len : ℕ)
      → (handle_calc_txn_hash toy p1 p2 buf len receiving).0 ≢ stuck)
    × (receiving.screen ≡ show_txn_elem → (elem_button toy receiving).0 ≢ stuck)
session_ends_example = session_ends toy toy_keys receiving receiving-Reachable

handle_calc_txn_hash-refuses_example :
    let res = handle_calc_txn_hash toy 0x80 1 first 22 boot_device in
    (IsUnknown 0x80 1 × (res ≡ (throw sw_invalid_param, boot_device)))
    ⊎ (¬ IsUnknown 0x80 1
        × IsOutOfTurn 0x80 boot_device.ctx.initialized
        × (res ≡ (throw sw_improper_init, boot_device)))
    ⊎ (¬ IsUnknown 0x80 1
        × ¬ IsOutOfTurn 0x80 boot_device.ctx.initialized
        × (res.0 ≢ throw sw_improper_init))
handle_calc_txn_hash-refuses_example = handle_calc_txn_hash-refuses toy 0x80 1 first 22 boot_device

abbrev screen_text : Bytes
screen_text = replicate 128 0

-- 1.5 siacoins in hastings
abbrev hastings : Bytes
hastings = b'1' ∷ b'5' ∷ replicate 23 b'0'

hastings-IsDigit : All IsDigit hastings
hastings-IsDigit = omega arith

format_sc_exact_example :
    (whole : Bytes) × (frac : Bytes) × InSiacoins hastings whole frac
      (format_sc (text_of screen_text hastings) (length hastings))
format_sc_exact_example = format_sc_exact screen_text hastings hastings-IsDigit (omega arith)

formats_one_and_a_half :
    take 7 (format_sc (text_of screen_text hastings) 25).0 ≡ codes "1.5 SC" ++ 0 ∷ []
unfolding format_sc make_room trim_zeros
formats_one_and_a_half = refl

pubkey_to_sia_address_lem_example :
    pubkey_to_sia_address toy (replicate 65 9) (replicate 77 0) 0 (replicate 65 3)
    ≡ bin2hex
        (bin2hex (replicate 77 0) 0 (standard_root toy toy-IsSdk (replicate 65 3)) 32)
        (0 + 64)
        (blake2b toy 6 (standard_root toy toy-IsSdk (replicate 65 3)))
        6
pubkey_to_sia_address_lem_example =
    pubkey_to_sia_address_lem toy toy-IsSdk (replicate 65 9) (replicate 77 0) 0 (replicate 65 3)
      (omega arith)

-- 10 ^ 9 hastings behind their length prefix, at the front of the buffer.
abbrev billion : Bytes
billion = 0x3b ∷ 0x9a ∷ 0xca ∷ 0 ∷ []

abbrev paying : CalcTxnHashContext Bytes
paying = record boot_device.ctx {
  txn = record boot_device.ctx.txn {
    buf = 4 ∷ replicate 7 0 ++ billion ++ replicate 498 0;
    pos = 8;
    buflen = 12;
  };
}

paying_out_val : length paying.txn.out_val ≡ 128
unfolding txn_init
paying_out_val = refl

fmt_siacoins_exact_example :
    (show_value toy paying.txn).0 ≡ ok tt
    × (s : Bytes) × (whole : Bytes) × (frac : Bytes) × (n : ℕ) × IsDecimal (be_value billion) s
    × InSiacoins s whole frac ((fmt_siacoins (shown_value toy paying)).full_str, n)
fmt_siacoins_exact_example =
    fmt_siacoins_exact toy toy-IsSdk paying billion (replicate 498 0) refl (omega arith)
      (omega arith) (omega arith) paying_out_val refl

-- A session that ends without a signature.
abbrev hashed : Device Bytes
hashed = record boot_device {
  ctx = record boot_device.ctx {
    txn = record boot_device.ctx.txn { sig_hash = replicate 32 0xab };
  };
}

send_hash_lem_example :
    ((send_hash hashed).sent ≡ hashed.sent ++ (replicate 32 0xab ++ word_bytes sw_ok) ∷ [])
    × ((send_hash hashed).screen ≡ compare_hash)
    × (text : Bytes) × (take 65 (send_hash hashed).ctx.full_str ≡ text ++ 0 ∷ [])
    × (unhex text ≡ replicate 32 0xab)
send_hash_lem_example = send_hash_lem hashed refl (omega arith) (omega arith) (omega arith)
