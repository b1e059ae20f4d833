-- ===== src/Main/Words.antt =====
-- The status words that `sia_main` (src/main.c) makes of exceptions.
