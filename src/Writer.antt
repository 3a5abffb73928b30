-- ===== src/Writer.antt =====
-- The writers of src/persistence/writer: the shared core, the log that they store, the writer of a
-- finite backfill, the confirmation window of the live tail, and the stream that joins them.
pub mod Core
pub mod Log
pub mod Block
pub mod Window
pub mod Pipeline
