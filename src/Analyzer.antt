-- ===== src/Analyzer.antt =====
-- src/vestibule/analyzer: the stage that detects a document's type and parses it.
pub mod Model
pub mod Detect
pub mod Analyze
pub mod Stage
pub mod Overtaken
pub mod Docint
pub mod Scanned
mod Tests
