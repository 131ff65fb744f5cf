-- ===== src/Text.antt =====
-- The program's own text functions (`trim`), and what it uses of the C library to read and print
-- numbers, to search in texts and to split them.
pub mod Trim
pub mod Search
pub mod Number
