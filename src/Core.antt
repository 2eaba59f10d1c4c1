-- ===== src/Core.antt =====
-- hammer/hammeregg_core/src/lib.rs: the packets of the signalling handshake, their validation,
-- their encoding as binary messages, and the packets of the live input stream.
pub mod Packet
pub mod Wire
pub mod Input
pub mod Validation
pub mod RoundTrip
