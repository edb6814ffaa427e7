-- ===== src/Setup.antt =====
-- Configuration and start-up.
pub mod Config
pub mod Codec
pub mod Arguments
pub mod Startup
pub mod Addresses
pub mod Log
pub mod Main
