-- ===== src/Engine.antt =====
-- The engine of src/engine.rs and what it runs.
pub mod Driver
pub mod Startup
pub mod Tasks
