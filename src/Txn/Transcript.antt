-- ===== src/Txn/Transcript.antt =====
-- What the decoder (src/txn.c) makes of a transaction, whatever the packets: the bytes taken so far,
-- which are the encodings of length prefixes and elements, and what of them enters the SigHash.
use app_sia_x.Base.{
  ℕ, ◌+◌, ◌^◌, ◌<◌, ◌≡◌, ◌≢◌, refl, arith, u16, [], ◌++◌, Bytes, length, All, IsByte, Result, ok,
  throw, stuck, false,
}
use app_sia_x.Sdk.{Sdk}
use app_sia_x.Codes.{TxnDecoderState, err, partial, ready, finished}
use app_sia_x.Blake2b.{blake2b, blake2b_init, blake2b_update}
use app_sia_x.Txn.State.{ElemType, unset, txn_sig, bump, is_txn_sig, TxnState}
use app_sia_x.Txn.Advance.{IsValid, pending}
use app_sia_x.Txn.Encoding.{Elem, IsSized, encode_elem, u64_bytes, covered_prefix, covered_elem}

-- The bytes read and the bytes covered, where the next element is number `i` of `n` of its type. A
-- slice of signatures has the one at `sig_index`.
pub data Transcript (sig_index : ℕ) : Bytes → Bytes → ElemType → ℕ → ℕ → Type 0 where
  nothing : Transcript sig_index [] [] unset 0 0
  open_slice :
      {read hashed : Bytes} {e : ElemType} {n : ℕ} (len : ℕ)
      → len < 2 ^ 64
      → is_txn_sig e ≡ false
      → (bump e ≡ txn_sig → sig_index < len)
      → Transcript sig_index read hashed e n n
      → Transcript sig_index
          (read ++ u64_bytes len)
          (hashed ++ covered_prefix (bump e) (u64_bytes len))
          (bump e)
          len
          0
  take_elem :
      {read hashed : Bytes} {e : ElemType} {n i : ℕ} (x : Elem e)
      → IsSized x
      → i ≢ n
      → Transcript sig_index read hashed e n i
      → Transcript sig_index
          (read ++ encode_elem x)
          (hashed ++ covered_elem sig_index e i (encode_elem x))
          e
          n
          (u16 (i + 1))

-- There is a signature at the index.
has_signature :
    (sig_index : ℕ) {read hashed : Bytes} {e : ElemType} {n i : ℕ}
    → e ≡ txn_sig
    → Transcript sig_index read hashed e n i
    → sig_index < n
has_signature sig_index sig nothing = cc
has_signature sig_index sig (open_slice len range other signed before) = signed sig
has_signature sig_index sig (take_elem x sized more before) = has_signature sig_index sig before

pub named_signature :
    (sig_index : ℕ) (read hashed : Bytes) (n i : ℕ)
    → Transcript sig_index read hashed txn_sig n i
    → sig_index < n
named_signature sig_index read hashed n i before = has_signature sig_index refl before

module _ {C : Type 0} (sdk : Sdk C) where
  -- The decoder between two elements of a transaction of which so many bytes have come.
  pub record Log (sig_index : ℕ) (input : Bytes) (t : TxnState C) : Type 0 where
    pub read : Bytes
    pub hashed : Bytes
    pub transcript : Transcript sig_index read hashed t.elem_type t.slice_len t.slice_index
    pub joined : read ++ pending t ≡ input
    pub blake : t.blake ≡ blake2b_update sdk (blake2b_init sdk) hashed
    pub bytes : All IsByte input
    pub valid : IsValid t
    pub same_sig_index : t.sig_index ≡ sig_index
    pub hash_size : length t.sig_hash ≡ 32
    pub at_front : t.pos ≡ 0

  -- The decoder behind the signatures.
  pub record Finished (sig_index : ℕ) (input : Bytes) (t : TxnState C) : Type 0 where
    pub read : Bytes
    pub hashed : Bytes
    pub count : ℕ
    pub transcript : Transcript sig_index read hashed txn_sig count count
    pub named : sig_index < count
    pub joined : read ++ pending t ≡ input
    pub digest : t.sig_hash ≡ blake2b sdk 32 hashed

  -- The decoder in the middle of an element, which it reads anew from its front.
  abbrev pub rewound : TxnState C → TxnState C
  rewound t = record t { pos = 0 }

  -- A call of the decoder that began with a log. That its loops end is proved elsewhere, and an
  -- error ends the session of an honest computer.
  abbrev pub Logged :
      (sig_index : ℕ) (input : Bytes) → Result TxnDecoderState (Unit {0}) × TxnState C → Type 0
  Logged sig_index input (ok _, t) = Log sig_index input t
  Logged sig_index input (throw finished, t) = Finished sig_index input t
  Logged sig_index input (throw ready, t) = Log sig_index input t
  Logged sig_index input (throw partial, t) = Log sig_index input (rewound t)
  Logged sig_index input (throw err, t) = Unit {0}
  Logged sig_index input (stuck, t) = Unit {0}

  pub Log-rewound :
      (sig_index : ℕ) (input : Bytes) (t : TxnState C)
      → Log sig_index input t
      → Log sig_index input (rewound t)
  Log-rewound sig_index input t log = record {
    read = log.read;
    hashed = log.hashed;
    transcript = log.transcript;
    joined = log.joined;
    blake = log.blake;
    bytes = log.bytes;
    valid = record {
      cap = log.valid.cap;
      fits = log.valid.fits;
      seeked = omega arith;
      counted = log.valid.counted;
    };
    same_sig_index = log.same_sig_index;
    hash_size = log.hash_size;
    at_front = refl;
  }
