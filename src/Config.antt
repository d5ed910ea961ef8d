-- ===== src/Config.antt =====
-- The configuration files on the SD card: boot_unlock_config.c, ftp_config.c and hekate_config.c of
-- sys-agent/source, over what they share.
pub mod Ini
pub mod Hekate
pub mod BootUnlock
pub mod Ftp
mod Tests
