-- ===== src/Keys/Address.antt =====
-- Addresses (src/sia.c): the Merkle tree that `pubkeyToSiaAddress` builds in place.
use app_sia_x.Base.{
  take_whole, min, length-append, write_tail_at, append_assoc, write_front, write_back, ℕ, ◌+◌, ◌≡◌,
  refl, arith, ap, ◌∙◌, sym, [], ◌∷◌, ◌++◌, Bytes, length, take, drop, write, write-nil, replicate,
  codes, take-append-drop, take-append_self, length-take, length-drop, true, false,
}
use app_sia_x.Sdk.{Sdk, IsSdk}
use app_sia_x.Blake2b.{blake2b, blake2b_init, blake2b_update, blake2b_final}
use app_sia_x.Bin2Hex.{bin2hex}
use app_sia_x.Bin2Hex.RoundTrip.{hex_text, length-hex_text, bin2hex-eq-write}
use app_sia_x.Keys.Pubkey.{sia_pubkey, extract_pubkey_bytes-eq-write}
use app_sia_x.Keys.{
  timelock_data, pubkey_data, sigsrequired_data, hash_into, merkle_root, pubkey_to_sia_address,
}

-- The parts of standard unlock conditions in Sia's encoding: no timelock, one Ed25519 key, and one
-- signature.
abbrev timelock : Bytes
timelock = replicate 8 0

abbrev unlock_key : Bytes → Bytes
unlock_key w = codes "ed25519" ++ replicate 9 0 ++ 32 ∷ replicate 7 0 ++ sia_pubkey w

abbrev signatures : Bytes
signatures = 1 ∷ replicate 7 0

timelock_data-eq : timelock_data ≡ 0 ∷ timelock
unfolding timelock_data
timelock_data-eq = refl

sigsrequired_data-eq : sigsrequired_data ≡ 0 ∷ signatures
unfolding sigsrequired_data
sigsrequired_data-eq = refl

pubkey_data-eq : (w : Bytes) → pubkey_data w ≡ 0 ∷ unlock_key w
unfolding pubkey_data
pubkey_data-eq w =
    let named = write (write (replicate 57 0) 0 (0 ∷ [])) 1 (codes "ed25519") in
    extract_pubkey_bytes-eq-write (write named 17 (32 ∷ [])) 25 w (omega arith)

module _ {C : Type 0} (sdk : Sdk C) (laws : IsSdk sdk) where
  -- The hashes of RFC 6962.
  abbrev leaf : Bytes → Bytes
  leaf bin = blake2b sdk 32 (0 ∷ bin)

  abbrev node : Bytes → Bytes → Bytes
  node left right = blake2b sdk 32 (1 ∷ left ++ right)

  abbrev pub standard_root : Bytes → Bytes
  standard_root w = node (node (leaf timelock) (leaf (unlock_key w))) (leaf signatures)

  length-blake2b_any : (n : ℕ) (bin : Bytes) → length (blake2b sdk n bin) ≡ min n 32
  unfolding blake2b blake2b_init blake2b_update blake2b_final
  length-blake2b_any n bin =
      let c = (sdk.cx_hash (sdk.cx_blake2b_init 256) false bin).0 in
      omega (arith, length-take {0} n (sdk.cx_hash c true []).1, laws.digest_size c [])

  pub length-blake2b : (bin : Bytes) → length (blake2b sdk 32 bin) ≡ 32
  length-blake2b bin = length-blake2b_any 32 bin

  module _ (xs ys : Bytes) (hx : length xs ≡ 32) (hy : length ys ≡ 32) (bin : Bytes) where
    first_slot : hash_into sdk (1 ∷ xs ++ ys) 1 bin ≡ 1 ∷ blake2b sdk 32 bin ++ ys
    unfolding hash_into
    first_slot = ap (◌∷◌ 1) (write_front xs ys (blake2b sdk 32 bin) (length-blake2b bin ∙ sym hx))

    second_slot : hash_into sdk (1 ∷ xs ++ ys) 33 bin ≡ 1 ∷ xs ++ blake2b sdk 32 bin
    unfolding hash_into
    second_slot =
        ap (λ n. 1 ∷ write (xs ++ ys) n (blake2b sdk 32 bin)) (sym hx)
        ∙ ap (◌∷◌ 1) (write_back xs ys (blake2b sdk 32 bin) (length-blake2b bin ∙ sym hy))

  filled :
      (x : ℕ) (xs ys w : Bytes)
      → length xs ≡ 32
      → length ys ≡ 32
      → merkle_root sdk (x ∷ xs ++ ys) w ≡ 1 ∷ standard_root w ++ leaf signatures
  unfolding merkle_root
  filled x xs ys w hx hy =
      let prefixed : write (x ∷ xs ++ ys) 0 (1 ∷ []) ≡ 1 ∷ xs ++ ys =
        ap (◌∷◌ 1) (write-nil (xs ++ ys) 0) in
      let a = leaf timelock in
      let b = leaf (unlock_key w) in
      let s = leaf signatures in
      rw
        (
          timelock_data-eq,
          sigsrequired_data-eq,
          pubkey_data-eq w,
          prefixed,
          first_slot xs ys hx hy (0 ∷ timelock),
          second_slot a ys (length-blake2b _) hy (0 ∷ unlock_key w),
          first_slot a b (length-blake2b _) (length-blake2b _) (1 ∷ a ++ b),
          second_slot (node a b) b (length-blake2b _) (length-blake2b _) (0 ∷ signatures),
        )
        (first_slot (node a b) s (length-blake2b _) (length-blake2b _) (1 ∷ node a b ++ s))

  merkle_root-standard :
      (junk w : Bytes)
      → length junk ≡ 65
      → merkle_root sdk junk w ≡ 1 ∷ standard_root w ++ leaf signatures
  merkle_root-standard [] w h = absurd (omega arith)
  merkle_root-standard (x ∷ js) w h =
      ap (λ zs. merkle_root sdk (x ∷ zs) w) (sym (take-append-drop 32 js))
      ∙ filled x (take 32 js) (drop 32 js) w (omega (arith, length-take {0} 32 js))
          (omega (arith, length-drop {0} 32 js))

  root_bytes : (w : Bytes) → take 32 (standard_root w ++ leaf signatures) ≡ standard_root w
  root_bytes w =
      ap (λ n. take n (standard_root w ++ leaf signatures)) (sym (length-blake2b _))
      ∙ take-append_self (standard_root w) (leaf signatures)

  -- `pubkeyToSiaAddress` writes the hexadecimal text of the Merkle root (RFC 6962) of the standard
  -- unlock conditions of the key, and behind it that of the first six bytes of the root's hash,
  -- whatever the local array held before.
  pub pubkey_to_sia_address_lem :
      (junk dst : Bytes) (off : ℕ) (w : Bytes)
      → length junk ≡ 65
      → pubkey_to_sia_address sdk junk dst off w
        ≡ bin2hex
            (bin2hex dst off (standard_root w) 32)
            (off + 64)
            (blake2b sdk 6 (standard_root w))
            6
  unfolding pubkey_to_sia_address
  pubkey_to_sia_address_lem junk dst off w h =
      let root : take 32 (drop 1 (merkle_root sdk junk w)) ≡ standard_root w =
        ap (λ m. take 32 (drop 1 m)) (merkle_root-standard junk w h) ∙ root_bytes w in
      ap (λ r. bin2hex (bin2hex dst off r 32) (off + 64) (blake2b sdk 6 r) 6) root

  -- The 76 characters of an address.
  abbrev pub address_text : Bytes → Bytes
  address_text w = hex_text (standard_root w) ++ hex_text (blake2b sdk 6 (standard_root w))

  pub length-address_text : (w : Bytes) → length (address_text w) ≡ 76
  length-address_text w = omega (
    arith,
    length-append (hex_text (standard_root w)) (hex_text (blake2b sdk 6 (standard_root w))),
    length-hex_text (standard_root w),
    length-hex_text (blake2b sdk 6 (standard_root w)),
    length-blake2b_any 32 (1 ∷ node (leaf timelock) (leaf (unlock_key w)) ++ leaf signatures),
    length-blake2b_any 6 (standard_root w),
  )

  -- The text and its NUL, wherever it is written.
  pub pubkey_to_sia_address-eq-write :
      (junk dst : Bytes) (off : ℕ) (w : Bytes)
      → length junk ≡ 65
      → pubkey_to_sia_address sdk junk dst off w ≡ write dst off (address_text w ++ 0 ∷ [])
  pubkey_to_sia_address-eq-write junk dst off w h =
      let root = standard_root w in
      let check = blake2b sdk 6 root in
      let whole : length root ≡ 32 =
        length-blake2b (1 ∷ node (leaf timelock) (leaf (unlock_key w)) ++ leaf signatures) in
      let short : length check ≡ 6 = length-blake2b_any 6 root in
      let size : length (hex_text root) ≡ 64 = omega (arith, length-hex_text root, whole) in
      let front : bin2hex dst off root 32 ≡ write dst off (hex_text root ++ 0 ∷ []) =
        bin2hex-eq-write dst off root 32 (omega (arith, whole))
        ∙ ap (λ b. write dst off (hex_text b ++ 0 ∷ [])) (take_whole 32 root whole) in
      pubkey_to_sia_address_lem junk dst off w h
      ∙ bin2hex-eq-write _ (off + 64) check 6 (omega (arith, short))
      ∙ ap (λ b. write (bin2hex dst off root 32) (off + 64) (hex_text b ++ 0 ∷ []))
          (take_whole 6 check short)
      ∙ ap (λ b. write b (off + 64) (hex_text check ++ 0 ∷ [])) front
      ∙ ap
          (λ n.
            write (write dst off (hex_text root ++ 0 ∷ [])) (off + n) (hex_text check ++ 0 ∷ []))
          (sym size)
      ∙ write_tail_at dst off (hex_text root) (0 ∷ []) (hex_text check ++ 0 ∷ [])
          (omega (arith, length-append (hex_text check) (0 ∷ [])))
      ∙ ap (write dst off) (sym (append_assoc (hex_text root) (hex_text check) (0 ∷ [])))
