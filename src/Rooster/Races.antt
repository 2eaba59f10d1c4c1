-- ===== src/Rooster/Races.antt =====
-- hammer/hammeregg_rooster/src/main.rs: a desktop that fails, and interleaved tasks for one name.
pub mod Failure
pub mod Duplicate
pub mod Stale
