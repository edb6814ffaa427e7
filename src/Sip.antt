-- ===== src/Sip.antt =====
-- The SIP side: svoiptunnel/sipmessage.cpp, sipendpoint.cpp and sipserver.cpp.
pub mod Boost
pub mod Headers
pub mod Lines
pub mod Media
pub mod Message
pub mod Proxy
pub mod Registry
pub mod Sdp
