-- ===== src/Txn/Honest.antt =====
-- The decoder (src/txn.c) in the session of an honest computer, which sends a whole transaction in
-- packets and one more only on TXN_STATE_PARTIAL, and of a user who approves all that is shown on
-- TXN_STATE_READY.
use app_sia_x.Base.{
  ℕ, zero, suc, ◌+◌, ◌≤◌, ◌<◌, ◌≡◌, refl, sym, ap, ◌∙◌, arith, inl, inr, List, [], ◌∷◌, ◌++◌,
  append_assoc, Bytes, length, length-append, length-replicate, u16, le→ltb, All, Option, none,
  some, Result, ok, throw, stuck,
}
use mathlib.Core.Path.{subst}
use app_sia_x.Sdk.{Sdk, IsSdk}
use app_sia_x.Codes.{TxnDecoderState, err, ready, partial, finished}
use app_sia_x.Blake2b.{blake2b, blake2b_init, blake2b_update}
use app_sia_x.Txn.State.{unset, TxnState, buf_size}
use app_sia_x.Txn.Decode.{txn_init, txn_update, txn_next_elem}
use app_sia_x.Txn.Advance.{IsValid, pending, txn_init-IsValid, txn_update_lem}
use app_sia_x.Txn.Encoding.{Display, encode, covered, approvals, Transaction, IsTransaction}
use app_sia_x.Txn.Encoding.Parses.{length-pending}
use app_sia_x.Txn.Encoding.Shown.{Screen, screen_of}
use app_sia_x.Txn.Encoding.Stage.{
  Remains-small, Remains-front, Shows, Stage, Stands, stands, Waits, waits,
}
use app_sia_x.Txn.Encoding.Decoding.{Decodes, presents, asks, ends, txn_next_elem-Decodes}
use app_sia_x.Txn.Encoding.Whole.{Transaction-Remains}

abbrev pub concat : List Bytes → Bytes
concat [] = []
concat (p ∷ packets) = p ++ concat packets

-- The calls that are still needed are no more than this.
abbrev pub work : List Bytes → ℕ
work packets = length packets + length (concat packets)

abbrev pub AreShort : List Bytes → Type 0
AreShort packets = All (λ p. length p ≤ 255) packets

-- The screens that were approved, and the decoder behind the transaction.
abbrev pub Report : Type 0 → Type 0
Report C = List Screen × TxnState C

module _ {C : Type 0} where
  abbrev with_screen : Screen → Option (Report C) → Option (Report C)
  with_screen s none = none
  with_screen s (some (screens, t)) = some (s ∷ screens, t)

  abbrev sent :
      (TxnState C → Option (Report C)) → Result ℕ (Unit {0}) × TxnState C → Option (Report C)
  sent go (ok _, t) = go t
  sent go (throw e, t) = none
  sent go (stuck, t) = none

  -- The packets go one by one to `txn_update`.
  abbrev send_next :
      (List Bytes → TxnState C → Option (Report C)) → List Bytes → TxnState C → Option (Report C)
  send_next go [] t = none
  send_next go (p ∷ packets) t = sent (go packets) (txn_update p t)

  abbrev follow :
      (List Bytes → TxnState C → Option (Report C))
      → List Bytes
      → Result ℕ TxnDecoderState × TxnState C
      → Option (Report C)
  follow go packets (ok finished, t) = some ([], t)
  follow go packets (ok ready, t) = with_screen (screen_of t) (go packets t)
  follow go packets (ok partial, t) = send_next go packets t
  follow go packets (ok err, t) = none
  follow go packets (throw e, t) = none
  follow go packets (stuck, t) = none

module _ {C : Type 0} (sdk : Sdk C) where
  -- So many calls of `txn_next_elem`.
  unfoldable pub decode_packets : ℕ → List Bytes → TxnState C → Option (Report C)
  decode_packets zero packets t = none
  decode_packets (suc fuel) packets t =
      let go = decode_packets fuel in follow go packets (txn_next_elem sdk t)

  unfoldable pub decode_transaction : ℕ → ℕ → List Bytes → Option (Report C)
  decode_transaction fuel sig_index packets =
      send_next (decode_packets fuel) packets (txn_init sdk sig_index)

  -- The screens, one by one.
  abbrev pub AllShow : List Display → List Screen → Type 0
  AllShow [] [] = Unit {0}
  AllShow (d ∷ ds) (s ∷ screens) = Shows sdk d s × AllShow ds screens
  AllShow _ _ = ⊥

  pub record Completes (all : Bytes) (ds : List Display) (r : Option (Report C)) : Type 0 where
    pub screens : List Screen
    pub state : TxnState C
    pub returns : r ≡ some (screens, state)
    pub shown : AllShow ds screens
    pub digest : state.sig_hash ≡ blake2b sdk 32 all

module _ {C : Type 0} (sdk : Sdk C) (laws : IsSdk sdk) (sig_index : ℕ) (all : Bytes) where
  -- A packet is taken.
  pub after_update :
      (ds : List Display) (bound : ℕ) (p future : Bytes) (t : TxnState C)
      → length p ≤ 255
      → Waits sdk sig_index all (p ++ future) ds bound t
      → (t' : TxnState C) × (txn_update p t ≡ (ok tt, t'))
        × (t'.buflen ≡ t.buflen + length p)
        × Stands sdk sig_index all future ds t'.buflen t'
  unfolding txn_update
  after_update ds bound p future t short (waits rest stage few le) =
      let head_small = Remains-small rest in
      let fit = le→ltb buf_size (t.buflen + length p) (omega arith) in
      let count : u16 (t.buflen + length p) ≡ t.buflen + length p = omega arith in
      elim (txn_update_lem p (record t { pos = 0 }) stage.valid) [
        | inl (room, _, front, _, valid) ↦ (
          _,
          rw fit refl,
          count,
          stands rest
              (record {
                same_elem_type = stage.same_elem_type;
                same_slice_len = stage.same_slice_len;
                same_slice_index = stage.same_slice_index;
                same_sig_index = stage.same_sig_index;
                valid = rw fit at valid;
                at_front = refl;
                stream =
                    ap (λ b. b ++ future) (rw fit at front)
                    ∙ append_assoc (pending t) p future
                    ∙ stage.stream;
                hashed = stage.hashed;
                blake = stage.blake;
                covered_all = stage.covered_all;
                hash_size = stage.hash_size;
                sized = stage.sized;
              })
              (omega (arith, count)) (omega arith),
        )
        | inr (full, _, _) ↦ absurd (omega arith)
      ]

  -- A session goes on to the end.
  abbrev GoesOn : ℕ → Type 0
  GoesOn fuel =
      (packets : List Bytes) (t : TxnState C) (ds : List Display)
      → AreShort packets
      → t.buflen + work packets < fuel
      → Stands sdk sig_index all (concat packets) ds t.buflen t
      → Completes sdk all ds (decode_packets sdk fuel packets t)

  -- A part that is at the end of the stream is there whole.
  pub no_more :
      (ds : List Display) (bound : ℕ) (t : TxnState C) → Waits sdk sig_index all [] ds bound t → ⊥
  no_more ds bound t (waits rest stage few le) = absurd (
      omega (
        arith,
        Remains-front rest,
        length-append (pending t) [],
        ap (length {A = ℕ}) stage.stream,
        length-pending (record t { pos = 0 }) stage.valid,
      ))

  -- The decoder asks for another packet.
  asked :
      (fuel : ℕ) (packets : List Bytes) (bound : ℕ) (t : TxnState C) (ds : List Display)
      → AreShort packets
      → bound + work packets < suc fuel
      → GoesOn fuel
      → Waits sdk sig_index all (concat packets) ds bound t
      → Completes sdk all ds (send_next (decode_packets sdk fuel) packets t)
  asked fuel [] bound t ds short enough go h = absurd (no_more ds bound t h)
  asked fuel (p ∷ packets) bound t ds (hp, short) enough go h =
      let (t', run, count, there) = after_update ds bound p (concat packets) t hp h in
      let less = waits_less ds bound t h in
      let rest = go packets t' ds short (omega (arith, length-append p (concat packets))) there in
      record {
        screens = rest.screens;
        state = rest.state;
        returns = ap (sent (decode_packets sdk fuel packets)) run ∙ rest.returns;
        shown = rest.shown;
        digest = rest.digest;
      }
    where
      waits_less :
          (ds : List Display) (bound : ℕ) (t : TxnState C)
          → Waits sdk sig_index all (p ++ concat packets) ds bound t
          → t.buflen ≤ bound
      waits_less ds bound t (waits rest stage few le) = le

  decoded :
      (fuel : ℕ) (packets : List Bytes) (t : TxnState C) (ds : List Display)
      (res : Result ℕ TxnDecoderState × TxnState C)
      → AreShort packets
      → t.buflen + work packets < suc fuel
      → GoesOn fuel
      → Decodes sdk laws sig_index all (concat packets) ds t res
      → Completes sdk all ds (follow (decode_packets sdk fuel) packets res)
  decoded fuel packets t ds _ short enough go (presents u h) =
      let rest = go packets u h.others short (omega (arith, h.taken)) h.then in
      let screens = screen_of u ∷ rest.screens in
      record {
        screens = screens;
        state = rest.state;
        returns = ap (with_screen (screen_of u)) rest.returns;
        shown = subst (λ ds. AllShow sdk ds screens) (sym h.order) (h.shows, rest.shown);
        digest = rest.digest;
      }
  decoded fuel packets t ds _ short enough go (asks u h) =
      asked fuel packets t.buflen u ds short enough go h
  decoded fuel packets t ds _ short enough go (ends u last digest) = record {
    screens = [];
    state = u;
    returns = refl;
    shown = subst (λ ds. AllShow sdk ds []) (sym last) tt;
    digest = digest;
  }

  decode_packets-GoesOn : (fuel : ℕ) → GoesOn fuel
  unfolding decode_packets
  decode_packets-GoesOn zero packets t ds short enough h = absurd (omega arith)
  decode_packets-GoesOn (suc fuel) packets t ds short enough h =
      decoded fuel packets t ds (txn_next_elem sdk t) short enough (decode_packets-GoesOn fuel)
        (txn_next_elem-Decodes sdk laws sig_index all (concat packets) ds t (valid_state h) h)
    where
      valid_state : Stands sdk sig_index all (concat packets) ds t.buflen t → IsValid t
      valid_state (stands rest stage room le) = stage.valid

module _ {C : Type 0} (sdk : Sdk C) (laws : IsSdk sdk) where
  -- Before the first packet.
  pub txn_init-Waits :
      (sig_index : ℕ) (tx : Transaction) (future : Bytes)
      → IsTransaction sig_index tx
      → future ≡ encode tx
      → Waits sdk sig_index (covered sig_index tx) future (approvals tx) 0 (txn_init sdk sig_index)
  unfolding txn_init blake2b_update
  txn_init-Waits sig_index tx future h joined =
      let start = record (txn_init sdk sig_index) { pos = 0 } in
      let stage : Stage sdk sig_index (covered sig_index tx) future unset 0 0 (encode tx)
          (covered sig_index tx) start =
        record {
          same_elem_type = refl;
          same_slice_len = refl;
          same_slice_index = refl;
          same_sig_index = refl;
          valid = txn_init-IsValid sdk sig_index;
          at_front = refl;
          stream = joined;
          hashed = [];
          blake = sym (laws.hash_nothing (blake2b_init sdk));
          covered_all = refl;
          hash_size = length-replicate {A = ℕ} 32 0;
          sized = (length-replicate {A = ℕ} 128 0, length-replicate {A = ℕ} 77 0);
        } in
      waits (Transaction-Remains sig_index tx h) stage (omega arith) (omega arith)

  -- If the SDK behaves as documented: a transaction that the app can take, with a signature at the
  -- index, is decoded to the end from its encoding, wherever that is cut into packets of at most 255
  -- bytes, if more calls may be made than there are packets and bytes. What is shown to the user on
  -- the way is each output's value, in decimal, with its address and checksum, and each fee's value,
  -- in order and nothing else, and `sigHash` is the BLAKE2b hash of the bytes that the signature
  -- covers.
  pub decode_transaction-Completes :
      (sig_index : ℕ) (tx : Transaction) (packets : List Bytes) (fuel : ℕ)
      → IsTransaction sig_index tx
      → concat packets ≡ encode tx
      → All (λ p. length p ≤ 255) packets
      → length packets + length (encode tx) < fuel
      → Completes sdk
          (covered sig_index tx)
          (approvals tx)
          (decode_transaction sdk fuel sig_index packets)
  unfolding decode_transaction
  decode_transaction-Completes sig_index tx packets fuel h joined short enough =
      let all = covered sig_index tx in
      asked sdk laws sig_index all fuel packets 0 (txn_init sdk sig_index) (approvals tx) short
        (omega (arith, ap (length {A = ℕ}) joined))
        (decode_packets-GoesOn sdk laws sig_index all fuel)
        (txn_init-Waits sig_index tx (concat packets) h joined)
