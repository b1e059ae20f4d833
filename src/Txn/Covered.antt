-- ===== src/Txn/Covered.antt =====
-- Each round of the decoder (src/txn.c) extends the transcript by the bytes that it takes.
use app_sia_x.Base.{
  ℕ, zero, suc, ◌+◌, ◌≤◌, ◌≡◌, ◌≢◌, ◌==◌, refl, sym, ap, ◌∙◌, arith, inl, inr, true, false,
  Bool-cases, ◌++◌, append_assoc, Bytes, length, length-take, take, drop, take-take, le_value, All,
  IsByte, All-split, Result, ok, throw, stuck, continue, leb, ◌&&◌, ◌<◌,
}
use native.Mathlib.Decide.{dec_le}
use mathlib.Core.Path.{subst}
use app_sia_x.Sdk.{Sdk, IsSdk}
use app_sia_x.Codes.{TxnDecoderState}
use app_sia_x.Txn.State.{txn_sig, bump, is_txn_sig, TxnState}
use app_sia_x.Txn.Read.{read_int}
use app_sia_x.Txn.Decode.{
  advance, store_hash, enter_slice, begin_slice, finish_txn, next_slice, next_slices, sig_missing,
}
use app_sia_x.Txn.Advance.{IsValid, pending}
use app_sia_x.Txn.ReadInt.{read_int_lem, read_int_short}
use app_sia_x.Txn.Slices.{IsValid-enter_slice}
use app_sia_x.Txn.Absorb.{is_txn_sig-eq, part, absorb_prefix, advance-splits, sig_hash-store_hash}
use app_sia_x.Txn.Transcript.{Transcript, open_slice, Log, Logged, Log-rewound, named_signature}
use app_sia_x.Txn.Encoding.{covered_prefix}
use app_sia_x.Txn.Taken.{All-take, IsInt, eight-IsInt}

module _ {C : Type 0} (sdk : Sdk C) (laws : IsSdk sdk) where
  module _ (sig_index : ℕ) (input : Bytes) (t : TxnState C) (log : Log sdk sig_index input t) where
    pending_bytes : All IsByte (pending t)
    pending_bytes = (All-split IsByte log.read (pending t) (rw (sym log.joined) at log.bytes)).1

    -- A length prefix is taken at the front of the buffer.
    module _ (edge : t.slice_index ≡ t.slice_len) (other : is_txn_sig t.elem_type ≡ false)
        (enough : 8 ≤ t.buflen) where
      -- The bytes of the prefix.
      front_bytes : All IsByte (take 8 t.buf)
      front_bytes =
          let front : take 8 (pending t) ≡ take 8 t.buf = take-take 8 t.buflen t.buf enough in
          rw front at (All-take 8 (pending t) pending_bytes)

      prefix_number : IsInt (le_value (take 8 t.buf)) (take 8 t.buf)
      prefix_number =
          let cap = log.valid.cap in
          let size : length (take 8 t.buf) ≡ 8 = omega (arith, length-take {0} 8 t.buf) in
          eight-IsInt (take 8 t.buf) size front_bytes

      abbrev prefixed : TxnState C
      prefixed = record t { pos = 8 }

      prefixed-IsValid : IsValid prefixed
      prefixed-IsValid = record {
        cap = log.valid.cap;
        fits = log.valid.fits;
        seeked = enough;
        counted = log.valid.counted;
      }

      enter_slice-Log :
          (bump t.elem_type ≡ txn_sig → sig_index < le_value (part prefixed))
          → Log sdk sig_index input (enter_slice sdk (le_value (part prefixed)) prefixed)
      unfolding enter_slice advance
      enter_slice-Log signed =
          let (range, bytes_of) = prefix_number in
          let prefix = part prefixed in
          let entered = record prefixed {
            slice_len = le_value prefix;
            slice_index = 0;
            elem_type = bump t.elem_type;
          } in
          let (valid, less) =
            IsValid-enter_slice sdk (le_value prefix) prefixed prefixed-IsValid other in
          let cap = log.valid.cap in
          record {
            read = log.read ++ prefix;
            hashed = log.hashed ++ covered_prefix (bump t.elem_type) prefix;
            transcript =
                subst
                  (λ b.
                    Transcript sig_index (log.read ++ b)
                      (log.hashed ++ covered_prefix (bump t.elem_type) b) (bump t.elem_type)
                      (le_value prefix) 0)
                  (sym bytes_of)
                  (open_slice (le_value prefix) range other signed (
                    subst (Transcript sig_index log.read log.hashed t.elem_type t.slice_len) edge
                      log.transcript));
            joined =
                append_assoc log.read prefix (pending (advance sdk entered))
                ∙ ap (◌++◌ log.read) (
                    sym (
                      advance-splits sdk laws entered
                        (record { seeked = enough; fits = log.valid.fits }) cap))
                ∙ log.joined;
            blake = absorb_prefix sdk laws entered log.hashed (omega arith) log.blake;
            bytes = log.bytes;
            valid = valid;
            same_sig_index = log.same_sig_index;
            hash_size = log.hash_size;
            at_front = refl;
          }

      -- The number in it.
      read_prefix : t.pos ≡ 0 → read_int sdk t ≡ (ok (le_value (part prefixed)), prefixed)
      read_prefix e =
          let front : take 8 (pending t) ≡ take 8 t.buf = take-take 8 t.buflen t.buf enough in
          let here : take 8 (drop t.pos t.buf) ≡ take 8 t.buf = ap (λ p. take 8 (drop p t.buf)) e in
          elim (read_int_lem sdk laws t log.valid (rw here front_bytes)) [
            | inl (room, run) ↦
                run
                ∙ ap (λ p. (ok (le_value (take 8 (drop p (pending t)))), record t { pos = p + 8 }))
                    e
                ∙ ap (λ b. (ok (le_value b), prefixed)) front
            | inr (few, run) ↦ absurd (omega arith)
          ]

  begin_slice-Logged :
      (sig_index : ℕ) (input : Bytes) (t : TxnState C) (log : Log sdk sig_index input t)
      → t.slice_index ≡ t.slice_len
      → is_txn_sig t.elem_type ≡ false
      → 8 ≤ t.buflen
      → Logged sdk sig_index input
          (begin_slice sdk (le_value (take 8 t.buf)) (record t { pos = 8 }))
  unfolding begin_slice enter_slice sig_missing advance
  begin_slice-Logged sig_index input t log edge other enough =
      let len = le_value (take 8 t.buf) in
      elim (Bool-cases (is_txn_sig (bump t.elem_type) && leb len t.sig_index)) [
        | inl missing ↦ rw missing tt
        | inr named ↦ rw named (
            enter_slice-Log sig_index input t log edge other enough λ sig.
              let kind : is_txn_sig (bump t.elem_type) ≡ true = ap is_txn_sig sig in
              let less : leb len t.sig_index ≡ false = rw kind at named in
              ground (arith, log.same_sig_index, less))
      ]

  finish_txn-Logged :
      (sig_index : ℕ) (input : Bytes) (t : TxnState C)
      → Log sdk sig_index input t
      → t.slice_index ≡ t.slice_len
      → t.elem_type ≡ txn_sig
      → Logged sdk sig_index input (finish_txn sdk t)
  unfolding finish_txn store_hash
  finish_txn-Logged sig_index input t log edge sig = record {
    read = log.read;
    hashed = log.hashed;
    count = t.slice_len;
    transcript = rw (edge, sig) at log.transcript;
    named =
        named_signature sig_index log.read log.hashed t.slice_len t.slice_len
          (rw (edge, sig) at log.transcript);
    joined = log.joined;
    digest = sig_hash-store_hash sdk laws t log.hashed log.blake log.hash_size;
  }

  next_slice-Logged :
      (sig_index : ℕ) (input : Bytes) (t : TxnState C)
      → Log sdk sig_index input t
      → t.slice_index ≡ t.slice_len
      → Logged sdk sig_index input (next_slice sdk t)
  unfolding next_slice
  next_slice-Logged sig_index input t log edge = elim (Bool-cases (is_txn_sig t.elem_type)) [
    | inl sig ↦
        rw sig (finish_txn-Logged sig_index input t log edge (is_txn_sig-eq t.elem_type sig))
    | inr other ↦ rw other (elim (dec_le 8 t.buflen) [
      | yes enough ↦
          rw (read_prefix sig_index input t log edge other enough log.at_front)
            (begin_slice-Logged sig_index input t log edge other enough)
      | no few ↦
          rw (read_int_short sdk laws t log.valid (omega (arith, few, log.at_front)))
            (Log-rewound sdk sig_index input t log)
    ])
  ]

  -- The loop stops with a log, off a slice boundary.
  abbrev pub LoggedElem : ℕ → Bytes → Result TxnDecoderState (Unit {0}) × TxnState C → Type 0
  LoggedElem sig_index input (ok _, t) = Log sdk sig_index input t × (t.slice_index ≢ t.slice_len)
  LoggedElem sig_index input (throw e, t) = Logged sdk sig_index input (throw e, t)
  LoggedElem sig_index input (stuck, t) = Unit {0}

  module _ (sig_index : ℕ) (input : Bytes) where
    more_slices :
        (fuel : ℕ) (res : Result TxnDecoderState (Unit {0}) × TxnState C)
        → ((u : TxnState C)
            → Log sdk sig_index input u
            → LoggedElem sig_index input (next_slices sdk fuel u))
        → Logged sdk sig_index input res
        → LoggedElem sig_index input (continue (λ _. next_slices sdk fuel) res)
    more_slices fuel (ok _, u) rest log = rest u log
    more_slices fuel (throw e, u) rest log = log
    more_slices fuel (stuck, u) rest log = tt

    pub next_slices-LoggedElem :
        (fuel : ℕ) (t : TxnState C)
        → Log sdk sig_index input t
        → LoggedElem sig_index input (next_slices sdk fuel t)
    unfolding next_slices
    next_slices-LoggedElem zero t log = tt
    next_slices-LoggedElem (suc fuel) t log = elim (Bool-cases (t.slice_index == t.slice_len)) [
      | inl e ↦ rw e (
          more_slices fuel (next_slice sdk t) (next_slices-LoggedElem fuel)
            (next_slice-Logged sig_index input t log (ground arith)))
      | inr e ↦ rw e (log, ground arith)
    ]
