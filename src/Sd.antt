-- ===== src/Sd.antt =====
-- src/protocol/sd: service discovery.
pub mod Flags
pub mod Entry
pub mod Options
pub mod Header
