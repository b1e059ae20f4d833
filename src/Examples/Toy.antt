-- ===== src/Examples/Toy.antt =====
-- A small SDK that meets the documented behaviour: a hash context is the bytes hashed so far, and a
-- digest the first 32 of them.
use app_sia_x.Base.{
  ℕ, ◌≡◌, refl, arith, [], ◌++◌, append_assoc, append-nil, Bytes, take, drop, length, length-append,
  length-take, length-replicate, replicate, be_value, le_value,
}
use app_sia_x.Sdk.{Sdk, IsSdk}

abbrev pub toy : Sdk Bytes
toy = record {
  u2_le = λ buf i. le_value (take 2 (drop i buf));
  u4_le = λ buf i. le_value (take 4 (drop i buf));
  u4_be = λ buf i. be_value (take 4 (drop i buf));
  cx_blake2b_init = λ bits. [];
  cx_hash = λ c last bin. (c ++ bin, take 32 ((c ++ bin) ++ replicate 32 0));
}

digest_size : (c bs : Bytes) → length (take 32 ((c ++ bs) ++ replicate 32 0)) ≡ 32
digest_size c bs = omega (
  arith,
  length-take {0} 32 ((c ++ bs) ++ replicate 32 0),
  length-append {0} (c ++ bs) (replicate 32 0),
  length-replicate {A = ℕ} 32 0,
)

pub toy-IsSdk : IsSdk toy
toy-IsSdk = record {
  u4_le_reads = λ buf i h. refl;
  u4_be_reads = λ buf i h. refl;
  digest_size = digest_size;
  hash_pieces = append_assoc;
  hash_nothing = append-nil;
}
