-- ===== src/Carrier.antt =====
-- The links over sockets.
pub mod Guests
pub mod Udp
pub mod Tcp
pub mod Secured
pub mod Tls
pub mod Dtls
