-- ===== src/Provisioning.antt =====
-- src/vestibule/provisioning: the registry of the vector indexes, and the claims on it.
pub mod Model
pub mod Registry
pub mod Template
pub mod Equality
pub mod World
pub mod InMemory
pub mod Calls
pub mod Verify
pub mod Create
pub mod Wait
pub mod Provisioner
pub mod Ready
pub mod Fresh
pub mod Bounded
pub mod Claims
pub mod Finalize
mod Tests
mod Ensured
