-- ===== src/Examples.antt =====
-- Each property at a concrete input, and tests of the definitions.
pub mod Links
pub mod Histories
pub mod Messages
pub mod Endpoints
pub mod Setups
pub mod Worlds
pub mod Proxies
pub mod Calls
pub mod Servers
pub mod Sockets
pub mod Carriers
pub mod Secrets
pub mod Tunnels
pub mod Programs
