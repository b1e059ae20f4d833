-- ===== src/Txn/Absorb.antt =====
-- The hash context of the decoder (src/txn.c) after `advance`.
use app_sia_x.Base.{
  ◌≤◌, ◌<◌, ◌≡◌, ◌==◌, if◌then◌else◌, leb, refl, sym, ap, ◌∙◌, arith, inl, inr, true, false,
  Bool-cases, [], ◌∷◌, ◌++◌, append-nil, append_assoc, Bytes, length, length-take, write_whole,
  take, drop, take-take, take-append-drop,
}
use app_sia_x.Sdk.{Sdk, IsSdk}
use app_sia_x.Blake2b.{blake2b, blake2b_final, blake2b_init, blake2b_update}
use app_sia_x.Txn.State.{ElemType, txn_sig, is_txn_sig, TxnState, buf_size}
use app_sia_x.Txn.Read.{add_replay_protection}
use app_sia_x.Txn.Decode.{absorb, advance, store_hash}
use app_sia_x.Txn.Readers.{IsSeekable}
use app_sia_x.Txn.Advance.{pending, pending-advance}
use app_sia_x.Txn.Encoding.{covered_prefix}

pub is_txn_sig-eq : (e : ElemType) → is_txn_sig e ≡ true → e ≡ txn_sig
is_txn_sig-eq txn_sig h = refl
is_txn_sig-eq _ h = cc

-- The bytes that `advance` drops.
abbrev pub part : {C : Type 0} → TxnState C → Bytes
part t = take t.pos t.buf

module _ {C : Type 0} (sdk : Sdk C) (laws : IsSdk sdk) where
  pub advance-splits :
      (t : TxnState C)
      → IsSeekable t
      → length t.buf ≡ buf_size
      → pending t ≡ part t ++ pending (advance sdk t)
  advance-splits t h cap =
      sym (take-append-drop t.pos (pending t))
      ∙ ap (λ b. b ++ drop t.pos (pending t)) (take-take t.pos t.buflen t.buf h.seeked)
      ∙ ap (◌++◌ (part t)) (sym (pending-advance sdk t h cap))

  pub hash_more :
      (c : C) (xs ys : Bytes)
      → c ≡ blake2b_update sdk (blake2b_init sdk) xs
      → blake2b_update sdk c ys ≡ blake2b_update sdk (blake2b_init sdk) (xs ++ ys)
  unfolding blake2b_update
  hash_more c xs ys e =
      ap (λ c. blake2b_update sdk c ys) e ∙ laws.hash_pieces (blake2b_init sdk) xs ys

  -- The hash context after `advance` behind a length prefix.
  pub absorb_prefix :
      (t : TxnState C) (xs : Bytes)
      → t.pos < 48
      → t.blake ≡ blake2b_update sdk (blake2b_init sdk) xs
      → absorb sdk t
        ≡ blake2b_update sdk (blake2b_init sdk) (xs ++ covered_prefix t.elem_type (part t))
  unfolding absorb
  absorb_prefix t xs few e = elim (Bool-cases (is_txn_sig t.elem_type)) [
    | inl sig ↦
        let short : leb 48 t.pos ≡ false = ground arith in
        elim (Bool-cases (t.slice_index == t.sig_index)) [
          | inl same ↦ rw (sig, same, short, append-nil xs) e
          | inr other ↦ rw (sig, other, append-nil xs) e
        ]
    | inr other ↦ rw other (hash_more t.blake xs (part t) e)
  ]

  module _ (u : TxnState C) (hashed : Bytes)
      (e : u.blake ≡ blake2b_update sdk (blake2b_init sdk) hashed) where
    pub absorb-plain :
        is_txn_sig u.elem_type ≡ false
        → absorb sdk u ≡ blake2b_update sdk (blake2b_init sdk) (hashed ++ part u)
    unfolding absorb
    absorb-plain other = rw other (hash_more u.blake hashed (part u) e)

    pub absorb-replayed :
        is_txn_sig u.elem_type ≡ false
        → absorb sdk (add_replay_protection sdk u)
          ≡ blake2b_update sdk (blake2b_init sdk) (hashed ++ 1 ∷ part u)
    unfolding absorb add_replay_protection
    absorb-replayed other =
        let marked = hash_more u.blake hashed (1 ∷ []) e in
        rw other (
          hash_more _ (hashed ++ 1 ∷ []) (part u) marked
          ∙ ap (blake2b_update sdk (blake2b_init sdk)) (append_assoc hashed (1 ∷ []) (part u)))

    pub absorb-signed :
        u.elem_type ≡ txn_sig
        → 48 ≤ u.pos
        → absorb sdk u
          ≡ blake2b_update sdk
              (blake2b_init sdk)
              (hashed ++ (if u.slice_index == u.sig_index then take 48 (part u) else []))
    unfolding absorb
    absorb-signed sig p =
        let enough : leb 48 u.pos ≡ true = ground arith in
        let front : take 48 (part u) ≡ take 48 u.buf = take-take 48 u.pos u.buf p in
        elim (Bool-cases (u.slice_index == u.sig_index)) [
          | inl this ↦ rw (sig, this, enough, front) (hash_more u.blake hashed (take 48 u.buf) e)
          | inr another ↦ rw (sig, another, append-nil hashed) e
        ]

  -- The digest is stored as it is.
  pub sig_hash-store_hash :
      (t : TxnState C) (hashed : Bytes)
      → t.blake ≡ blake2b_update sdk (blake2b_init sdk) hashed
      → length t.sig_hash ≡ 32
      → (store_hash sdk t).sig_hash ≡ blake2b sdk 32 hashed
  unfolding store_hash blake2b_final blake2b
  sig_hash-store_hash t hashed e cap =
      let digest = take 32 (sdk.cx_hash t.blake true []).1 in
      let size : length t.sig_hash ≡ length digest = omega (
        arith,
        length-take {0} 32 (sdk.cx_hash t.blake true []).1,
        laws.digest_size t.blake [],
        cap,
      ) in
      write_whole t.sig_hash digest (sym size) ∙ ap (λ c. take 32 (sdk.cx_hash c true []).1) e
