-- ===== src/Txn/Encoding/ShownAddress.antt =====
-- What `readHash` (src/txn.c) leaves in `outAddr`.
use app_sia_x.Base.{
  ◌+◌, ◌≡◌, refl, sym, ap, ◌∙◌, arith, true, false, [], ◌∷◌, ◌++◌, Bytes, length, length-append,
  length-take, length-write, take, drop, take-write_start, take_whole, write, write_tail_at, ok,
  throw, continue,
}
use native.Mathlib.Decide.{dec_le}
use app_sia_x.Sdk.{Sdk, IsSdk}
use app_sia_x.Blake2b.{blake2b, blake2b_init, blake2b_update, blake2b_final}
use app_sia_x.Bin2Hex.{bin2hex}
use app_sia_x.Bin2Hex.RoundTrip.{hex_text, length-hex_text, bin2hex-eq-write}
use app_sia_x.Codes.{partial}
use app_sia_x.Txn.State.{TxnState}
use app_sia_x.Txn.Read.{seek, show_address, read_hash}
use app_sia_x.Txn.Readers.{need_at_least_enough, need_at_least_short, seek_enough}
use app_sia_x.Txn.Advance.{IsValid-IsSeekable}
use app_sia_x.Txn.Encoding.Parses.{whole, short, Parses, Kept, Kept-refl}
use app_sia_x.Txn.Encoding.Fields.{buffered}
use app_sia_x.Txn.Encoding.Shown.{address_string, ShowsAddress}

module _ {C : Type 0} (sdk : Sdk C) (laws : IsSdk sdk) where
  length-checksum : (bin : Bytes) → length (blake2b sdk 6 bin) ≡ 6
  unfolding blake2b blake2b_init blake2b_update blake2b_final
  length-checksum bin =
      let c = (sdk.cx_hash (sdk.cx_blake2b_init 256) false bin).0 in
      omega (arith, length-take {0} 6 (sdk.cx_hash c true []).1, laws.digest_size c [])

  address_written :
      (dst bin : Bytes)
      → length bin ≡ 32
      → bin2hex (bin2hex dst 0 bin 32) 64 (blake2b sdk 6 bin) 6
        ≡ write dst 0 (address_string sdk bin)
  address_written dst bin size =
      let check = blake2b sdk 6 bin in
      let few = length-checksum bin in
      let digits : 0 + length (hex_text bin) ≡ 64 = omega (arith, length-hex_text bin) in
      let front : bin2hex dst 0 bin 32 ≡ write dst 0 (hex_text bin ++ 0 ∷ []) =
        bin2hex-eq-write dst 0 bin 32 (omega arith)
        ∙ ap (λ b. write dst 0 (hex_text b ++ 0 ∷ [])) (take_whole 32 bin size) in
      bin2hex-eq-write _ 64 check 6 (omega arith)
      ∙ ap (λ b. write (bin2hex dst 0 bin 32) 64 (hex_text b ++ 0 ∷ [])) (take_whole 6 check few)
      ∙ ap (λ b. write b 64 (hex_text check ++ 0 ∷ [])) front
      ∙ ap (λ n. write (write dst 0 (hex_text bin ++ 0 ∷ [])) n (hex_text check ++ 0 ∷ []))
          (sym digits)
      ∙ write_tail_at dst 0 (hex_text bin) (0 ∷ []) (hex_text check ++ 0 ∷ [])
          (omega (arith, length-append (hex_text check) (0 ∷ [])))

  abbrev address_after : Bytes → Bytes → Bytes
  address_after dst bin = bin2hex (bin2hex dst 0 bin 32) 64 (blake2b sdk 6 bin) 6

  show_address-eq :
      (t : TxnState C) (bin : Bytes)
      → take 32 (drop t.pos t.buf) ≡ bin
      → show_address sdk t ≡ record t { out_addr = address_after t.out_addr bin }
  unfolding show_address
  show_address-eq t bin front = ap (λ b. record t { out_addr = address_after t.out_addr b }) front

  length-address_string : (bin : Bytes) → length bin ≡ 32 → length (address_string sdk bin) ≡ 77
  length-address_string bin size =
      let check = hex_text (blake2b sdk 6 bin) in
      omega (
        arith,
        length-append (hex_text bin) (check ++ 0 ∷ []),
        length-append check (0 ∷ []),
        length-hex_text bin,
        length-hex_text (blake2b sdk 6 bin),
        length-checksum bin,
      )

  address_shown :
      (t : TxnState C) (bin : Bytes)
      → length bin ≡ 32
      → ShowsAddress sdk bin t
          (record t { out_addr = address_after t.out_addr bin; pos = t.pos + 32 })
  address_shown t bin size =
      let text = address_string sdk bin in
      let count = length-address_string bin size in
      record {
        same_out_val = refl;
        same_val_len = refl;
        address = λ cap.
            ap (take 77) (address_written t.out_addr bin size)
            ∙ ap (λ n. take n (write t.out_addr 0 text)) (sym count)
            ∙ take-write_start t.out_addr text (omega (arith, count, cap));
      }

  pub read_hash_shown-Parses :
      (bin : Bytes) → length bin ≡ 32 → Parses (read_hash sdk true) bin tt (ShowsAddress sdk bin)
  unfolding read_hash
  read_hash_shown-Parses bin size = record {
    run = λ t future rest h e.
        let s = IsValid-IsSeekable h in
        elim (dec_le (t.pos + 32) t.buflen) [
          | yes fits ↦
              let front : take 32 (drop t.pos t.buf) ≡ bin =
                ap (λ n. take n (drop t.pos t.buf)) (sym size)
                ∙ buffered t future bin rest h e (omega arith) in
              let written = address_written t.out_addr bin size in
              let u = record t { out_addr = address_after t.out_addr bin } in
              let w = record u { pos = t.pos + 32 } in
              let run : read_hash sdk true t ≡ (ok tt, w) =
                ap (continue _) (need_at_least_enough 32 t s fits)
                ∙ ap (seek 32) (show_address-eq t bin front)
                ∙ seek_enough 32 u (record { seeked = h.seeked; fits = h.fits }) fits in
              let kept : Kept t w = record {
                keeps = ground arith;
                same_val_size = refl;
                same_addr_size =
                    ap length written ∙ length-write t.out_addr 0 (address_string sdk bin);
              } in
              rw run (whole w (omega arith) kept (omega arith) (address_shown t bin size))
          | no few ↦
              let run : read_hash sdk true t ≡ (throw partial, t) =
                ap (continue _) (need_at_least_short 32 t s (omega arith)) in
              rw run (short t (omega arith) (Kept-refl t h))
        ];
  }
