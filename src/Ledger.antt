-- ===== src/Ledger.antt =====
-- src/vestibule/ledger/store.py: one row for each document, and the state machine of its status.
pub mod Model
pub mod Store
pub mod Legal
pub mod Effect
pub mod Invariant
pub mod Triage
pub mod Overtaken
pub mod Triaged
pub mod Stage
pub mod Trace
pub mod Listing
pub mod Stored
pub mod Distinct
mod Tests
