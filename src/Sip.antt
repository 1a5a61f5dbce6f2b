-- ===== src/Sip.antt =====
-- The SIP engine: internal/sip.
pub mod Address
pub mod Message
pub mod Identity
pub mod Router
pub mod Ring
pub mod Sdp
pub mod Framing
pub mod Server
