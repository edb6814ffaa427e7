-- ===== src/Ssl.antt =====
-- What the links over OpenSSL share.
pub mod Cookie
pub mod Locks
pub mod Session
