-- ===== src/Symbols.antt =====
-- The table of symbols and the table of gensyms (src/ikarus-symbol-table.c).
pub mod Text
pub mod Hash
pub mod Objects
pub mod Search
pub mod Tables
pub mod Tests
