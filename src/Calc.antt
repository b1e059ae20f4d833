-- ===== src/Calc.antt =====
-- The calcTxnHash command (src/calcTxnHash.c).
pub mod Format
pub mod Handler
pub mod Calls
pub mod Amount
pub mod Session
pub mod Refusal
pub mod Approval
pub mod Signing
pub mod HashReply
pub mod Dialog
