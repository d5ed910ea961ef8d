-- ===== src/Store.antt =====
-- sys-agent/source/search_store.c: the file that keeps the candidates of a search.
pub mod Layout
pub mod Crc
pub mod Payload
pub mod File
pub mod Writer
pub mod Reader
pub mod Commit
pub mod Estimate
pub mod Directory
mod Tests
