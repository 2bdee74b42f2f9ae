-- ===== src/Vertical.antt =====
-- src/vestibule/vertical/: which scenario a document belongs to, and the queue of those that a
-- human must decide.
pub mod Model
pub mod Rules
pub mod Resolve
pub mod Load
pub mod Review
pub mod Choice
pub mod Mapping
pub mod Checked
pub mod Parking
pub mod Repark
pub mod Assignment
pub mod Rejection
mod Tests
