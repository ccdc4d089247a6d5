-- ===== src/Config.antt =====
-- config.c: the stored configuration.
pub mod Library
pub mod Settings
pub mod Roundtrip
pub mod Slots
pub mod Hosts
pub mod Loading
pub mod Restored
pub mod Storage
pub mod Survival
pub mod Damage
