-- ===== src/Indexer.antt =====
-- src/vestibule/indexer: the stage that writes a document's chunks to a vector store.
pub mod Model
pub mod Upsert
pub mod Records
pub mod Index
pub mod Verdict
pub mod Stage
pub mod Memory
pub mod Coherence
pub mod Puts
pub mod Replace
pub mod Redeliver
mod Tests
