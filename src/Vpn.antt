-- ===== src/Vpn.antt =====
-- The VPN link: svoiptunnel/vpnlinkbase.h and vpnlinkbase.cpp.
pub mod Wire
pub mod Link
pub mod Node
pub mod Endpoints
pub mod Tunnel
