-- ===== src/Txn/Encoding.antt =====
-- Sia's encoding of transactions, as an independent description of what the decoder (src/txn.c) reads,
-- and the bytes of it that the signature at an index covers.
pub mod Words
pub mod Parses
pub mod Fields
pub mod Shown
pub mod ShownAddress
pub mod Stage
pub mod Leads
pub mod EndElem
pub mod ReadElem
pub mod Boundary
pub mod Decoding
pub mod Whole
use app_sia_x.Base.{
  ℕ, zero, suc, ◌+◌, ◌/◌, ◌%◌, ◌^◌, ◌≤◌, ◌<◌, ◌≡◌, ◌==◌, if◌then◌else◌, List, [], ◌∷◌, ◌++◌, Bytes,
  take, length, All, IsByte, replicate,
}
use app_sia_x.Txn.State.{
  ElemType, unset, sc_input, sc_output, fc, fcr, sp, sf_input, sf_output, miner_fee, arb_data,
  txn_sig, beyond, is_txn_sig,
}

-- All length prefixes are covered but that of the signatures.
abbrev pub covered_prefix : ElemType → Bytes → Bytes
covered_prefix e prefix = if is_txn_sig e then [] else prefix

-- An input is covered with the replay prefix in front, of the signatures only the one at `sig_index`
-- with its first 48 bytes, and anything else as it is.
abbrev pub covered_elem : ℕ → ElemType → ℕ → Bytes → Bytes
covered_elem sig_index sc_input i part = 1 ∷ part
covered_elem sig_index sf_input i part = 1 ∷ part
covered_elem sig_index txn_sig i part = if i == sig_index then take 48 part else []
covered_elem sig_index _ i part = part

-- A number in so many bytes, the lowest first.
abbrev pub le_bytes : ℕ → ℕ → Bytes
le_bytes zero n = []
le_bytes (suc k) n = n % 256 ∷ le_bytes k (n / 256)

abbrev pub u64_bytes : ℕ → Bytes
u64_bytes n = le_bytes 8 n

-- Bytes behind their number.
abbrev pub prefixed : Bytes → Bytes
prefixed bs = u64_bytes (length bs) ++ bs

pub record Key : Type 0 where
  pub algorithm : Bytes
  pub key : Bytes

pub record UnlockConditions : Type 0 where
  pub timelock : ℕ
  pub keys : List Key
  pub required : ℕ

abbrev pub encode_keys : List Key → Bytes
encode_keys [] = []
encode_keys (k ∷ keys) = k.algorithm ++ (prefixed k.key ++ encode_keys keys)

abbrev pub encode_conditions : UnlockConditions → Bytes
encode_conditions c =
    u64_bytes c.timelock
    ++ (u64_bytes (length c.keys) ++ (encode_keys c.keys ++ u64_bytes c.required))

-- The elements. A value or a claim start is a big-endian number.
pub data Elem : ElemType → Type 0 where
  coin_input : (parent : Bytes) → UnlockConditions → Elem sc_input
  coin_output : (value unlock_hash : Bytes) → Elem sc_output
  fund_input : (parent : Bytes) → UnlockConditions → (claim_unlock_hash : Bytes) → Elem sf_input
  fund_output : (value unlock_hash claim_start : Bytes) → Elem sf_output
  fee : (value : Bytes) → Elem miner_fee
  signature : (parent : Bytes) (key_index timelock : ℕ) (sig : Bytes) → Elem txn_sig

-- What the user is asked to approve.
pub data Display : Type 0 where
  payment : (value unlock_hash : Bytes) → Display
  payment_of_fee : (value : Bytes) → Display

abbrev pub displays : {e : ElemType} → Elem e → List Display
displays (coin_output value unlock_hash) = payment value unlock_hash ∷ []
displays (fund_output value unlock_hash claim) = payment value unlock_hash ∷ []
displays (fee value) = payment_of_fee value ∷ []
displays _ = []

-- So many empty lists.
abbrev pub empty_fields : ℕ → Bytes
empty_fields zero = []
empty_fields (suc n) = u64_bytes 0 ++ empty_fields n

-- A signature covers the whole transaction.
abbrev pub encode_elem : {e : ElemType} → Elem e → Bytes
encode_elem (coin_input parent c) = parent ++ encode_conditions c
encode_elem (coin_output value unlock_hash) = prefixed value ++ unlock_hash
encode_elem (fund_input parent c claim) = parent ++ (encode_conditions c ++ claim)
encode_elem (fund_output value unlock_hash claim) =
    prefixed value ++ (unlock_hash ++ prefixed claim)
encode_elem (fee value) = prefixed value
encode_elem (signature parent key_index timelock sig) =
    parent
    ++ (u64_bytes key_index ++ (u64_bytes timelock ++ ((1 ∷ empty_fields 10) ++ prefixed sig)))

pub record IsKey (k : Key) : Type 0 where
  pub algorithm_size : length k.algorithm ≡ 16
  pub key_size : length k.key < 2 ^ 64

pub record IsConditions (c : UnlockConditions) : Type 0 where
  pub timelock_range : c.timelock < 2 ^ 64
  pub required_range : c.required < 2 ^ 64
  pub keys_range : length c.keys < 2 ^ 64
  pub keys_shape : All IsKey c.keys

-- A value that is shown is not zero and has at most 18 bytes.
pub record IsValue (value : Bytes) : Type 0 where
  pub positive : 1 ≤ length value
  pub small : length value ≤ 18
  pub bytes : All IsByte value

-- The sizes of the parts of an element, whatever its values.
abbrev pub IsSized : {e : ElemType} → Elem e → Type 0
IsSized (coin_input parent c) = (length parent ≡ 32) × IsConditions c
IsSized (coin_output value unlock_hash) = (length value < 2 ^ 64) × (length unlock_hash ≡ 32)
IsSized (fund_input parent c claim) = (length parent ≡ 32) × IsConditions c × (length claim ≡ 32)
IsSized (fund_output value unlock_hash claim) =
    (length value < 2 ^ 64) × (length unlock_hash ≡ 32) × (length claim < 2 ^ 64)
IsSized (fee value) = length value < 2 ^ 64
IsSized (signature parent key_index timelock sig) =
    (length parent ≡ 32) × (key_index < 2 ^ 64) × (timelock < 2 ^ 64) × (length sig < 2 ^ 64)

-- The sizes of the parts of an element whose values the app can show.
abbrev pub IsShaped : {e : ElemType} → Elem e → Type 0
IsShaped (coin_input parent c) = (length parent ≡ 32) × IsConditions c
IsShaped (coin_output value unlock_hash) = IsValue value × (length unlock_hash ≡ 32)
IsShaped (fund_input parent c claim) = (length parent ≡ 32) × IsConditions c × (length claim ≡ 32)
IsShaped (fund_output value unlock_hash claim) =
    IsValue value × (length unlock_hash ≡ 32) × (length claim < 2 ^ 64)
IsShaped (fee value) = IsValue value
IsShaped (signature parent key_index timelock sig) =
    (length parent ≡ 32) × (key_index < 2 ^ 64) × (timelock < 2 ^ 64) × (length sig < 2 ^ 64)

-- An element that the app can take: no longer than a packet.
pub record IsElem {e : ElemType} (x : Elem e) : Type 0 where
  pub shape : IsShaped x
  pub short : length (encode_elem x) ≤ 255

abbrev pub encode_elems : {e : ElemType} → List (Elem e) → Bytes
encode_elems [] = []
encode_elems (x ∷ xs) = encode_elem x ++ encode_elems xs

abbrev pub encode_slice : {e : ElemType} → List (Elem e) → Bytes
encode_slice xs = u64_bytes (length xs) ++ encode_elems xs

-- The transactions that the app can take: without file contracts, storage proofs and arbitrary data.
pub record Transaction : Type 0 where
  pub sc_inputs : List (Elem sc_input)
  pub sc_outputs : List (Elem sc_output)
  pub sf_inputs : List (Elem sf_input)
  pub sf_outputs : List (Elem sf_output)
  pub miner_fees : List (Elem miner_fee)
  pub signatures : List (Elem txn_sig)

abbrev pub slice_of : Transaction → (e : ElemType) → List (Elem e)
slice_of tx sc_input = tx.sc_inputs
slice_of tx sc_output = tx.sc_outputs
slice_of tx sf_input = tx.sf_inputs
slice_of tx sf_output = tx.sf_outputs
slice_of tx miner_fee = tx.miner_fees
slice_of tx txn_sig = tx.signatures
slice_of tx _ = []

-- The order of the slices.
abbrev pub later_types : List ElemType
later_types = sc_output ∷ fc ∷ fcr ∷ sp ∷ sf_input ∷ sf_output ∷ miner_fee ∷ arb_data ∷ txn_sig ∷ []

abbrev pub elem_types : List ElemType
elem_types = sc_input ∷ later_types

abbrev pub encode_slices : Transaction → List ElemType → Bytes
encode_slices tx [] = []
encode_slices tx (e ∷ es) = encode_slice (slice_of tx e) ++ encode_slices tx es

unfoldable pub encode : Transaction → Bytes
encode tx = encode_slices tx elem_types

-- The covered bytes of the elements from number `i` on.
abbrev pub covered_elems : ℕ → {e : ElemType} → ℕ → List (Elem e) → Bytes
covered_elems sig_index i [] = []
covered_elems sig_index {e} i (x ∷ xs) =
    covered_elem sig_index e i (encode_elem x) ++ covered_elems sig_index (i + 1) xs

abbrev pub covered_slices : ℕ → Transaction → List ElemType → Bytes
covered_slices sig_index tx [] = []
covered_slices sig_index tx (e ∷ es) =
    covered_prefix e (u64_bytes (length (slice_of tx e)))
    ++ (covered_elems sig_index 0 (slice_of tx e) ++ covered_slices sig_index tx es)

-- What the signature at an index signs.
unfoldable pub covered : ℕ → Transaction → Bytes
covered sig_index tx = covered_slices sig_index tx elem_types

abbrev pub displays_of_elems : {e : ElemType} → List (Elem e) → List Display
displays_of_elems [] = []
displays_of_elems (x ∷ xs) = displays x ++ displays_of_elems xs

abbrev pub displays_of_slices : Transaction → List ElemType → List Display
displays_of_slices tx [] = []
displays_of_slices tx (e ∷ es) = displays_of_elems (slice_of tx e) ++ displays_of_slices tx es

-- What the user is asked to approve, in order.
unfoldable pub approvals : Transaction → List Display
approvals tx = displays_of_slices tx elem_types

abbrev pub IsSlice : {e : ElemType} → List (Elem e) → Type 0
IsSlice xs = (length xs < 2 ^ 16) × All IsElem xs

-- A transaction that the app can take, and that has a signature at the index.
pub record IsTransaction (sig_index : ℕ) (tx : Transaction) : Type 0 where
  pub slices : (e : ElemType) → IsSlice (slice_of tx e)
  pub signed : sig_index < length tx.signatures
