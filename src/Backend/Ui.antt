-- ===== src/Backend/Ui.antt =====
-- hammer/hammeregg_backend/src/ui: the screens of the desktop, as what a frame makes of them.
pub mod Platform
pub mod Screen
pub mod Key
pub mod Setup
pub mod Keygen
pub mod Running
pub mod App
pub mod Consistent
pub mod Packing
