-- ===== src/Examples/Union.antt =====
-- A layout of the union of contexts (src/sia_ux.h): the smaller members lie on the first fields and
-- on the front of `txn.buf`.
use app_sia_x.Base.{
  ℕ, Bool, ◌+◌, ◌-◌, ◌%◌, ◌^◌, ◌≤◌, ◌≡◌, refl, ap, ◌∙◌, sym, arith, ◌++◌, Bytes, length,
  length-append, length-take, length-drop, length-write, take, drop, take-append_self,
  drop-append_self, take-take, drop-take, write, take-write_start,
}
use app_sia_x.Device.Contexts.{
  CalcTxnHashContext, GetPublicKeyContext, SignHashContext, IsGetPublicKeyContext,
  IsSignHashContext, Spares, IsUnion, Layout, IsLayout,
}

-- Two fields side by side.
parts :
    (a xs ys : Bytes) (m n : ℕ)
    → length xs ≡ m
    → take (m + n) a ≡ xs ++ ys
    → (take m a ≡ xs) × (take n (drop m a) ≡ ys)
parts a xs ys m n hx e =
    let rest : n ≡ m + n - m = omega arith in
    (
      sym (take-take m (m + n) a (omega arith))
          ∙ ap (take m) e
          ∙ ap (λ k. take k (xs ++ ys)) (sym hx)
          ∙ take-append_self xs ys,
      ap (λ k. take k (drop m a)) rest
          ∙ sym (drop-take m (m + n) a)
          ∙ ap (drop m) e
          ∙ ap (λ k. drop k (xs ++ ys)) (sym hx)
          ∙ drop-append_self xs ys,
    )

stored : (buf xs : Bytes) (n : ℕ) → length xs ≡ n → n ≤ length buf → take n (write buf 0 xs) ≡ xs
stored buf xs n e room =
    ap (λ k. take k (write buf 0 xs)) (sym e) ∙ take-write_start buf xs (omega (arith, e))

module _ {C : Type 0} where
  abbrev with_front : ℕ → Bool → Bytes → CalcTxnHashContext C → CalcTxnHashContext C
  with_front key sign bs c = record c {
    key_index = key % 2 ^ 32;
    sign = sign;
    txn = record c.txn { buf = write c.txn.buf 0 bs };
  }

  abbrev pub toy_layout : Layout C
  toy_layout = record {
    as_public_key = λ c. record {
      key_index = c.key_index;
      gen_addr = c.sign;
      type_str = take 40 c.txn.buf;
      key_str = take 40 (drop 40 c.txn.buf);
      full_str = take 77 (drop 40 (drop 40 c.txn.buf));
    };
    put_public_key =
        λ k c. with_front k.key_index k.gen_addr (k.type_str ++ (k.key_str ++ k.full_str)) c;
    as_sign_hash = λ c. record {
      key_index = c.key_index;
      hash = take 32 c.txn.buf;
      hex_hash = take 64 (drop 32 c.txn.buf);
    };
    put_sign_hash = λ h c. with_front h.key_index c.sign (h.hash ++ h.hex_hash) c;
  }

  with_front-Spares :
      (key : ℕ) (sign : Bool) (bs : Bytes) (c : CalcTxnHashContext C)
      → Spares c (with_front key sign bs c)
  with_front-Spares key sign bs c = record {
    same_key_range = λ h. omega arith;
    same_buf_size = length-write c.txn.buf 0 bs;
    same_buflen = refl;
    same_pos = refl;
    same_elem_type = refl;
    same_slice_len = refl;
    same_slice_index = refl;
    same_sig_index = refl;
    same_blake = refl;
    same_sig_hash = refl;
    same_initialized = refl;
  }

  toy_reads_public_key :
      (k : GetPublicKeyContext) (c : CalcTxnHashContext C)
      → IsGetPublicKeyContext k
      → IsUnion c
      → toy_layout.as_public_key (toy_layout.put_public_key k c) ≡ k
  toy_reads_public_key k c sizes union =
      let rest = k.key_str ++ k.full_str in
      let n : length rest ≡ 117 =
        omega (arith, length-append k.key_str k.full_str, sizes.key_size, sizes.full_size) in
      let whole =
        stored c.txn.buf (k.type_str ++ rest) 157
          (omega (arith, length-append k.type_str rest, n, sizes.type_size))
          (omega (arith, union.whole_buf)) in
      let (ty, tail) = parts _ k.type_str rest 40 117 sizes.type_size whole in
      let (key, full) = parts _ k.key_str k.full_str 40 77 sizes.key_size tail in
      let index : k.key_index % 2 ^ 32 ≡ k.key_index = omega (arith, sizes.key_range) in
      rw (index, ty, key, full) refl

  toy_reads_sign_hash :
      (h : SignHashContext) (c : CalcTxnHashContext C)
      → IsSignHashContext h
      → IsUnion c
      → toy_layout.as_sign_hash (toy_layout.put_sign_hash h c) ≡ h
  toy_reads_sign_hash h c sizes union =
      let whole =
        stored c.txn.buf (h.hash ++ h.hex_hash) 96
          (omega (arith, length-append h.hash h.hex_hash, sizes.hash_size, sizes.hex_size))
          (omega (arith, union.whole_buf)) in
      let (hash, hex) = parts _ h.hash h.hex_hash 32 64 sizes.hash_size whole in
      let index : h.key_index % 2 ^ 32 ≡ h.key_index = omega (arith, sizes.key_range) in
      rw (index, hash, hex) refl

  pub toy_layout-IsLayout : IsLayout toy_layout
  toy_layout-IsLayout = record {
    spares_public_key = λ k c. with_front-Spares k.key_index k.gen_addr _ c;
    spares_sign_hash = λ h c. with_front-Spares h.key_index c.sign _ c;
    typed_public_key = λ c u. record {
      key_range = u.key_range;
      type_size = omega (arith, length-take {0} 40 c.txn.buf, u.whole_buf);
      key_size = omega (
        arith,
        length-take {0} 40 (drop 40 c.txn.buf),
        length-drop {0} 40 c.txn.buf,
        u.whole_buf,
      );
      full_size = omega (
        arith,
        length-take {0} 77 (drop 40 (drop 40 c.txn.buf)),
        length-drop {0} 40 (drop 40 c.txn.buf),
        length-drop {0} 40 c.txn.buf,
        u.whole_buf,
      );
    };
    typed_sign_hash = λ c u. record {
      key_range = u.key_range;
      hash_size = omega (arith, length-take {0} 32 c.txn.buf, u.whole_buf);
      hex_size = omega (
        arith,
        length-take {0} 64 (drop 32 c.txn.buf),
        length-drop {0} 32 c.txn.buf,
        u.whole_buf,
      );
    };
    reads_public_key = toy_reads_public_key;
    reads_sign_hash = toy_reads_sign_hash;
  }
