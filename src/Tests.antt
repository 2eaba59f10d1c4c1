-- ===== src/Tests.antt =====
-- Runs of the model on small inputs, and each theorem with a hypothesis at an input that meets it.
mod Encoding
mod Services
mod Core
mod Rooster
mod Server
mod Backend
mod Desktop
mod Ui
mod Sessions
mod Startup
mod Config
mod Stopping
mod Conversation
mod Closure
