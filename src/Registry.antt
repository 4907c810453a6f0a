-- ===== src/Registry.antt =====
-- packages/contracts/registry/assembly/Registry.ts
pub mod State
pub mod Checks
pub mod Contracts
pub mod Entries
pub mod Versions
pub mod Admin
pub mod Listing
pub mod Sorting
