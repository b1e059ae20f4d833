-- ===== src/Lib.antt =====
-- Verification of the Sia wallet app for Ledger devices.
--
-- The app answers APDU packets of a computer. Its core is a streaming decoder of Sia transactions:
-- the calcTxnHash command feeds it packets, it shows each output and fee to the user, hashes the
-- covered bytes on the way, and ends with the hash to be signed.
--
-- The files, and the code that each models:
--   Base        shared names: bytes, C arrays as lists, Boolean tests and casts, bit operations,
--               numbers in either byte order, and actions that may throw and keep the state
--   Sdk         what the app calls of the Ledger SDK (os.h, cx.h): a parameter of the model, with
--               its documented behaviour as laws
--   Codes       src/sia.h: status words, decoder states, U8BE and U8LE
--   Bin2Hex, Bin2Dec, FormatSc
--               src/sia.c: bin2hex, bin2dec, formatSC
--   Decimal     what decimal text means, for Bin2Dec, FormatSc and Currency
--   Currency    src/txn.c: DivWw is divWW10, Limbs is quorem10 and the normalisation, Cur2Dec is
--               cur2dec
--   Blake2b     src/blake2b.c
--   Keys        src/sia.c: deriveSiaKeypair, deriveAndSign, extractPubkeyBytes, pubkeyToSiaAddress;
--               Pubkey, Address and Signature hold proofs
--   Txn         src/txn.c: State is txn_state_t; Read has need_at_least, seek and the readers; Decode
--               has advance, __txn_next_elem (decode_elem), txn_next_elem, txn_init and txn_update.
--               The other children hold proofs: Readers (what each reader keeps), ReadInt, Advance
--               (the valid bytes and the invariant), Slices and Elements (each round takes bytes),
--               Progress (the loops end), Consumes, Taken and TakenShown (what the readers have taken
--               when they return), Transcript (the elements that the decoder takes and what of them
--               is hashed, as a relation), Absorb, Covered, CoveredEnd and CoveredElem (each round
--               extends it), SigHash.
--               Encoding is Sia's encoding of transactions and what a signature covers of it, with
--               the decoder on a stream that begins with it: Words, Parses, Fields, Shown and
--               ShownAddress (the readers), Stage (where the decoder stands), Leads, EndElem and
--               ReadElem (the elements), Boundary (the length prefixes), Decoding (the loops) and
--               Whole (the start). Honest has the session of an honest computer and of a user who
--               approves
--   Device      src/main.c: io_exchange_with_code, ui_idle, ui_menu_about, io_seproxyhal_cancel, and
--               the state that the commands share. Contexts has the union of src/sia_ux.h, Replies
--               the bytes that are sent
--   Calc        src/calcTxnHash.c: Format is fmtTxnElem; Handler has handleCalcTxnHash and the
--               buttons' functions; Amount, Calls, Session, Refusal, Approval, Signing
--               and HashReply hold proofs. Dialog has the session of an honest computer and of a user who presses on
--               through the screens, with its proofs in Formats, Looks, Presses and Signs
--   SignHash    src/signHash.c: handleSignHash and the approval; Consent holds proofs
--   PublicKey   src/getPublicKey.c: handleGetPublicKey and the approval; Reply and Request hold
--               proofs
--   Screens     the flows of screens of these files, and what a press calls
--   Main        src/getVersion.c, and of src/main.c lookupHandler, sia_main and the restart in
--               main; Words and Refusals hold proofs on the status words, Reach has
--               the states that the app can be in, over Safe and Press
--   Seproxyhal  src/main.c: io_event and io_exchange_al; Status holds proofs
--   Examples    a small SDK and layout that meet the laws, tests, and the theorems at concrete inputs
--
-- How the code is translated. A function that changes a structure takes and returns it; one that
-- may THROW is an action (Base/Monad), whose state comes back after a throw too. Machine integers
-- are natural numbers with the wrap-around written out. An array keeps all its bytes, the stale
-- ones included; a store behind its end is dropped, and a load behind it gives zero, which C does
-- not define.
--
-- Loops. Loops with a counter recurse on the rounds left. The digit loop of cur2dec recurses on the
-- free bytes of its buffer. bin2dec counts digits on fuel `n`. __txn_next_elem and txn_next_elem have
-- no bound in the code; here they run on fuel `buflen + 1`, and running out is the result `stuck`,
-- which no C code gives. The fuel is enough, since each round takes a byte at least or throws.
--
-- The main loop. A round of sia_main is a function from one wait for a packet to the next; between
-- rounds the user may press both buttons at any step of the flow that is shown. Packets and presses
-- in any order are the steps of the relation Waiting in Main/Reach.
--
-- The union. The contexts of the commands share memory (src/sia_ux.h), so a packet of one command
-- overwrites the state of another. The state of the model is the largest member,
-- calcTxnHashContext; how the others are read from and stored into it is the compiler's and a
-- parameter (Layout), with what the sizes imply as laws: a store into a smaller member touches only
-- the first fields and txn.buf, and is read back.
--
-- The sessions. The Encoding modules describe a transaction as Sia encodes it, independently of the
-- decoder. Txn/Honest and Calc/Dialog run the decoder and the command on its packets until it is
-- behind the last signature, on fuel: a call takes a packet or a byte, and a press takes a byte or
-- shows the second half of an element, so twice the packets and bytes are enough.
--
-- Not modelled: how the SDK draws a flow and moves between its steps; its initialisation (the body
-- of main around sia_main, app_exit); that io_exchange may throw; the clearing of local secrets in
-- src/sia.c; the host program in Go.
pub mod Base
pub mod Sdk
pub mod Codes
pub mod Decimal
pub mod Bin2Hex
pub mod Bin2Dec
pub mod Currency
pub mod Blake2b
pub mod Txn
pub mod FormatSc
pub mod Keys
pub mod Device
pub mod Calc
pub mod SignHash
pub mod PublicKey
pub mod Screens
pub mod Main
pub mod Seproxyhal
mod Examples
