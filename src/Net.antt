-- ===== src/Net.antt =====
-- The sockets.
pub mod Steps
pub mod Udp
pub mod Tcp
