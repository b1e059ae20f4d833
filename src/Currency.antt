-- ===== src/Currency.antt =====
-- Currency values (src/txn.c).
pub mod DivWw
pub mod Limbs
pub mod Cur2Dec
