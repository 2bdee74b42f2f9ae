-- ===== src/Embedder.antt =====
-- src/vestibule/embedder: the stage that gives each chunk its vector.
pub mod Model
pub mod Embed
pub mod Batching
pub mod Stage
pub mod Overtaken
mod Tests
