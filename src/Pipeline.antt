-- ===== src/Pipeline.antt =====
-- The stages together: from the analyzer of src/vestibule/analyzer/analyzer.py to the indexer of
-- src/vestibule/indexer/indexer.py.
pub mod Accepted
pub mod Advance
pub mod Judge
pub mod Run
pub mod Whole
mod Tests
