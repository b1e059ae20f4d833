-- ===== src/Txn/Read.antt =====
-- The readers of src/txn.c, which move `pos` over the bytes buffered.
use app_sia_x.Base.{
  ℕ, zero, suc, ◌+◌, ◌-◌, ◌^◌, Bool, true, false, not, [], ◌∷◌, ltb, ◌==◌, u8, u16, u64, byte_at,
  take, drop, ok, throw, stuck, pure, raise_if, gets, modify, ◌>>=◌, ◌>>◌,
}
use app_sia_x.Sdk.{Sdk}
use app_sia_x.Codes.{err, partial, u8_le}
use app_sia_x.Blake2b.{blake2b, blake2b_update}
use app_sia_x.Bin2Hex.{bin2hex}
use app_sia_x.Currency.Cur2Dec.{cur2dec}
use app_sia_x.Txn.State.{TxnState, TxnAction}

module _ {C : Type 0} where
  -- The difference of the two `uint16_t` is converted to `uint64_t`.
  unfoldable pub need_at_least : ℕ → TxnAction C (Unit {0})
  need_at_least n txn = raise_if (ltb (u64 (txn.buflen + 2 ^ 64 - txn.pos)) n) partial txn

  unfoldable pub seek : ℕ → TxnAction C (Unit {0})
  seek n = need_at_least n >> modify (λ txn. record txn { pos = u16 (txn.pos + n) })

module _ {C : Type 0} (sdk : Sdk C) where
  unfoldable pub read_int : TxnAction C ℕ
  read_int = do need_at_least 8; u ← gets (λ txn. u8_le sdk txn.buf txn.pos); seek 8; pure u

  -- `txn->valLen = cur2dec(outVal, txn->buf+txn->pos-8)`, where `outVal` is `txn->outVal`.
  unfoldable pub show_value : TxnAction C (Unit {0})
  show_value txn = elim (cur2dec sdk txn.out_val (drop (txn.pos - 8) txn.buf)) [
    | ok (out_val, len) ↦ (ok tt, record txn { out_val = out_val; val_len = u8 len })
    | throw e ↦ (throw e, txn)
    | stuck ↦ (stuck, txn)
  ]

  -- Both readers below are called with a field of `txn` to fill, or with NULL.
  unfoldable pub read_currency : Bool → TxnAction C (Unit {0})
  read_currency shown = do
    val_len ← read_int
    need_at_least val_len
    elim shown [ true ↦ show_value | false ↦ pure tt ]
    seek val_len

  -- The address and its checksum in hexadecimal, into `txn->outAddr`.
  unfoldable pub show_address : TxnState C → TxnState C
  show_address txn =
      let hash = take 32 (drop txn.pos txn.buf) in
      let out_addr = bin2hex txn.out_addr 0 hash 32 in
      record txn { out_addr = bin2hex out_addr 64 (blake2b sdk 6 hash) 6 }

  unfoldable pub read_hash : Bool → TxnAction C (Unit {0})
  read_hash shown = do
    need_at_least 32
    elim shown [ true ↦ modify show_address | false ↦ pure tt ]
    seek 32

  unfoldable pub read_prefixed_bytes : TxnAction C (Unit {0})
  read_prefixed_bytes = do len ← read_int; seek len

  -- `while (numKeys --> 0) { seek(txn, 16); readPrefixedBytes(txn); }`
  unfoldable pub read_keys : ℕ → TxnAction C (Unit {0})
  read_keys zero txn = pure tt txn
  read_keys (suc n) txn = let rest = read_keys n in (seek 16 >> (read_prefixed_bytes >> rest)) txn

  unfoldable pub read_unlock_conditions : TxnAction C (Unit {0})
  read_unlock_conditions = do read_int; num_keys ← read_int; read_keys num_keys; read_int; pure tt

  -- `for (i = 0; i < 10; i++) if (readInt(txn) != 0) THROW(TXN_STATE_ERR);`, by the rounds left.
  unfoldable pub read_empty_fields : ℕ → TxnAction C (Unit {0})
  read_empty_fields zero = pure tt
  read_empty_fields (suc n) = do len ← read_int; raise_if (not (len == 0)) err; read_empty_fields n

  unfoldable pub read_covered_fields : TxnAction C (Unit {0})
  read_covered_fields = do
    need_at_least 1
    whole ← gets (λ txn. byte_at txn.buf txn.pos)
    raise_if (not (whole == 1)) err
    seek 1
    read_empty_fields 10

  -- The prefix is that of the chain that the app is built for.
  unfoldable pub add_replay_protection : TxnState C → TxnState C
  add_replay_protection txn = record txn { blake = blake2b_update sdk txn.blake (1 ∷ []) }
