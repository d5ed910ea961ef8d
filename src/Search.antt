-- ===== src/Search.antt =====
-- The memory search: `search_range.c`, `search_value.c`, `search_compare.c` and `search_match.c`, and the
-- exact search of `search.c` (all in sys-agent/source).
pub mod Range
pub mod Value
pub mod Compare
pub mod Match
pub mod Run
mod Tests
