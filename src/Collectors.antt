-- ===== src/Collectors.antt =====
-- The collectors of src/collectors and their combinators in src/collector_ext.
pub mod Retries
pub mod Merging
pub mod Logs
pub mod Lookups
pub mod Combining
