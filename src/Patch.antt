-- ===== src/Patch.antt =====
-- sys-agent/source/patch_code.c: code of another process is patched in one transaction.
pub mod Kernel
pub mod Request
pub mod Events
pub mod Run
pub mod Calls
pub mod Guarded
pub mod Released
mod Tests
