-- ===== src/Device/Contexts.antt =====
-- The contexts of the commands (src/sia_ux.h). They share memory: `commandContext` is a union.
use app_sia_x.Base.{ℕ, ◌^◌, ◌<◌, ◌≡◌, Bool, Bytes, length}
use app_sia_x.Txn.State.{TxnState, buf_size}

-- `calcTxnHashContext_t`
pub record CalcTxnHashContext (C : Type 0) : Type 0 where
  pub key_index : ℕ
  pub sign : Bool
  pub elem_part : ℕ
  pub txn : TxnState C
  pub label_str : Bytes
  pub full_str : Bytes
  pub initialized : Bool

-- `getPublicKeyContext_t`
pub record GetPublicKeyContext : Type 0 where
  pub key_index : ℕ
  pub gen_addr : Bool
  pub type_str : Bytes
  pub key_str : Bytes
  pub full_str : Bytes

-- `signHashContext_t`
pub record SignHashContext : Type 0 where
  pub key_index : ℕ
  pub hash : Bytes
  pub hex_hash : Bytes

-- The sizes of the members.
pub record IsGetPublicKeyContext (k : GetPublicKeyContext) : Type 0 where
  pub key_range : k.key_index < 2 ^ 32
  pub type_size : length k.type_str ≡ 40
  pub key_size : length k.key_str ≡ 40
  pub full_size : length k.full_str ≡ 77

pub record IsSignHashContext (h : SignHashContext) : Type 0 where
  pub key_range : h.key_index < 2 ^ 32
  pub hash_size : length h.hash ≡ 32
  pub hex_size : length h.hex_hash ≡ 64

-- How the compiler lays the union out. The state of the model is its largest member,
-- `calcTxnHashContext`; the others are read from that memory and stored into it.
pub record Layout (C : Type 0) : Type 0 where
  pub as_public_key : CalcTxnHashContext C → GetPublicKeyContext
  pub put_public_key : GetPublicKeyContext → CalcTxnHashContext C → CalcTxnHashContext C
  pub as_sign_hash : CalcTxnHashContext C → SignHashContext
  pub put_sign_hash : SignHashContext → CalcTxnHashContext C → CalcTxnHashContext C

-- The smaller members, of 162 and 100 bytes, lie on the first fields and the 510 bytes of
-- `txn.buf`: a store into them leaves all other fields alone, and the key index has 32 bits.
pub record Spares {C : Type 0} (c c' : CalcTxnHashContext C) : Type 0 where
  pub same_key_range : c.key_index < 2 ^ 32 → c'.key_index < 2 ^ 32
  pub same_buf_size : length c'.txn.buf ≡ length c.txn.buf
  pub same_buflen : c'.txn.buflen ≡ c.txn.buflen
  pub same_pos : c'.txn.pos ≡ c.txn.pos
  pub same_elem_type : c'.txn.elem_type ≡ c.txn.elem_type
  pub same_slice_len : c'.txn.slice_len ≡ c.txn.slice_len
  pub same_slice_index : c'.txn.slice_index ≡ c.txn.slice_index
  pub same_sig_index : c'.txn.sig_index ≡ c.txn.sig_index
  pub same_blake : c'.txn.blake ≡ c.txn.blake
  pub same_sig_hash : c'.txn.sig_hash ≡ c.txn.sig_hash
  pub same_initialized : c'.initialized ≡ c.initialized

-- A 32-bit key index, and a whole buffer.
pub record IsUnion {C : Type 0} (c : CalcTxnHashContext C) : Type 0 where
  pub key_range : c.key_index < 2 ^ 32
  pub whole_buf : length c.txn.buf ≡ buf_size

pub record IsLayout {C : Type 0} (layout : Layout C) : Type 0 where
  pub spares_public_key :
      (k : GetPublicKeyContext) (c : CalcTxnHashContext C) → Spares c (layout.put_public_key k c)
  pub spares_sign_hash :
      (h : SignHashContext) (c : CalcTxnHashContext C) → Spares c (layout.put_sign_hash h c)
  pub typed_public_key :
      (c : CalcTxnHashContext C) → IsUnion c → IsGetPublicKeyContext (layout.as_public_key c)
  pub typed_sign_hash :
      (c : CalcTxnHashContext C) → IsUnion c → IsSignHashContext (layout.as_sign_hash c)
  -- what is stored is read back
  pub reads_public_key :
      (k : GetPublicKeyContext) (c : CalcTxnHashContext C)
      → IsGetPublicKeyContext k
      → IsUnion c
      → layout.as_public_key (layout.put_public_key k c) ≡ k
  pub reads_sign_hash :
      (h : SignHashContext) (c : CalcTxnHashContext C)
      → IsSignHashContext h
      → IsUnion c
      → layout.as_sign_hash (layout.put_sign_hash h c) ≡ h
