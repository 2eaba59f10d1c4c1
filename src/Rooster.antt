-- ===== src/Rooster.antt =====
-- hammer/hammeregg_rooster/src/main.rs: the signalling server.
pub mod Config
pub mod Peers
pub mod Task
pub mod Home
pub mod Remote
pub mod Server
pub mod Rendezvous
pub mod Steps
pub mod Races
pub mod Directory
