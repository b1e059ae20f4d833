-- ===== src/Keys.antt =====
-- Keys, signatures and addresses (src/sia.c). The derivation of seeds and the curve are the SDK's.
pub mod Pubkey
pub mod Address
pub mod Signature
use app_sia_x.Base.{
  length, ◌≡◌, ℕ, zero, suc, ◌+◌, ◌-◌, [], ◌∷◌, List, Bytes, bit_and, bit_or, ◌==◌, not,
  if◌then◌else◌, byte_at, codes, replicate, take, drop, write,
}
use app_sia_x.Sdk.{Sdk}
use app_sia_x.Blake2b.{blake2b}
use app_sia_x.Bin2Hex.{bin2hex}

-- The functions of os.h and cx.h that work on keys, over a type `K` of private keys: the seed at a
-- BIP-32 path, the key of a seed, the bytes `W` of the public point of a key, and a signature.
pub record KeySdk (K : Type 0) : Type 0 where
  pub derive_node : List ℕ → Bytes
  pub init_private_key : Bytes → K
  pub generate_pair : K → Bytes
  pub eddsa_sign : K → Bytes → Bytes

-- An Ed25519 signature of a hash has 64 bytes.
pub record IsKeySdk {K : Type 0} (keys : KeySdk K) : Type 0 where
  pub signature_size :
      (k : K) (hash : Bytes) → length hash ≡ 32 → length (keys.eddsa_sign k hash) ≡ 64

unfoldable pub bip32_path : ℕ → List ℕ
bip32_path index =
    bit_or 44 0x80000000
    ∷ bit_or 93 0x80000000
    ∷ bit_or index 0x80000000
    ∷ 0x80000000
    ∷ 0x80000000
    ∷ []

module _ {K : Type 0} (keys : KeySdk K) where
  -- The private key, and the bytes of the public one.
  unfoldable pub derive_sia_keypair : ℕ → K × Bytes
  derive_sia_keypair index =
      let pk = keys.init_private_key (keys.derive_node (bip32_path index)) in
      (pk, keys.generate_pair pk)

  -- The bytes stored at `dst`.
  unfoldable pub derive_and_sign : ℕ → Bytes → Bytes
  derive_and_sign index hash = keys.eddsa_sign (derive_sia_keypair index).0 (take 32 hash)

-- `for (i = 0; i < 32; i++) dst[i] = publicKey->W[64 - i];` with so many rounds left; `dst` stands
-- at offset `off` of an array.
unfoldable pub reverse_point : ℕ → ℕ → Bytes → ℕ → Bytes → Bytes
reverse_point zero i dst off w = dst
reverse_point (suc left) i dst off w =
    reverse_point left (i + 1) (write dst (off + i) (byte_at w (64 - i) ∷ [])) off w

-- `extractPubkeyBytes(array + off, W)`
unfoldable pub extract_pubkey_bytes : Bytes → ℕ → Bytes → Bytes
extract_pubkey_bytes dst off w =
    let reversed = reverse_point 32 0 dst off w in
    if not (bit_and (byte_at w 32) 1 == 0)
    then write reversed (off + 31) (bit_or (byte_at reversed (off + 31)) 0x80 ∷ [])
    else reversed

abbrev pub leaf_hash_prefix : ℕ
leaf_hash_prefix = 0

abbrev pub node_hash_prefix : ℕ
node_hash_prefix = 1

unfoldable pub timelock_data : Bytes
timelock_data = write (replicate 9 0) 0 (leaf_hash_prefix ∷ [])

unfoldable pub pubkey_data : Bytes → Bytes
pubkey_data w =
    let named = write (write (replicate 57 0) 0 (leaf_hash_prefix ∷ [])) 1 (codes "ed25519") in
    extract_pubkey_bytes (write named 17 (32 ∷ [])) 25 w

unfoldable pub sigsrequired_data : Bytes
sigsrequired_data = write (write (replicate 9 0) 0 (leaf_hash_prefix ∷ [])) 1 (1 ∷ [])

module _ {C : Type 0} (sdk : Sdk C) where
  -- `blake2b(merkleData+slot, 32, data, …)`
  unfoldable pub hash_into : Bytes → ℕ → Bytes → Bytes
  hash_into merkle_data slot bin = write merkle_data slot (blake2b sdk 32 bin)

  -- `merkleData` at the end; `junk` is what the array holds before anything is stored in it.
  unfoldable pub merkle_root : Bytes → Bytes → Bytes
  merkle_root junk w =
      let m0 = write junk 0 (node_hash_prefix ∷ []) in
      let m1 = hash_into m0 1 timelock_data in
      let m2 = hash_into m1 33 (pubkey_data w) in
      let m3 = hash_into m2 1 m2 in let m4 = hash_into m3 33 sigsrequired_data in hash_into m4 1 m4

  -- `pubkeyToSiaAddress(array + off, W)`
  unfoldable pub pubkey_to_sia_address : Bytes → Bytes → ℕ → Bytes → Bytes
  pubkey_to_sia_address junk dst off w =
      let unlock_hash = take 32 (drop 1 (merkle_root junk w)) in
      let checksum = blake2b sdk 6 unlock_hash in
      bin2hex (bin2hex dst off unlock_hash 32) (off + 64) checksum 6
