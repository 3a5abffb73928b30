-- ===== src/Tests.antt =====
-- Runs of the development on concrete inputs: each instantiates a theorem where its hypotheses hold.
pub mod Arithmetic
pub mod Executor
pub mod Persistence
pub mod Wrapping
pub mod Ranges
pub mod Records
pub mod Subscribing
pub mod Running
pub mod Storing
pub mod Served
pub mod Feeding
