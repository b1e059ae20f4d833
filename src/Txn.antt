-- ===== src/Txn.antt =====
-- The transaction decoder (src/txn.c).
pub mod State
pub mod Read
pub mod Decode
pub mod Readers
pub mod Advance
pub mod Slices
pub mod Elements
pub mod Progress
pub mod ReadInt
pub mod Transcript
pub mod Absorb
pub mod Consumes
pub mod Taken
pub mod TakenShown
pub mod Covered
pub mod CoveredEnd
pub mod CoveredElem
pub mod SigHash
pub mod Encoding
pub mod Honest
