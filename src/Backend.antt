-- ===== src/Backend.antt =====
-- hammer/hammeregg_backend: the desktop, which answers offers and feeds a remote's input to the
-- computer.
pub mod Stream
pub mod Enigo
pub mod Input
pub mod Handshake
pub mod Host
pub mod Pion
pub mod Closure
pub mod Seal
pub mod Offer
pub mod Handles
pub mod WorkThread
pub mod Connect
pub mod Ui
pub mod Startup
pub mod Conversation
pub mod Stopping
