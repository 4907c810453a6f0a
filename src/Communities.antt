-- ===== src/Communities.antt =====
-- packages/contracts/communities/assembly/Communities.ts
pub mod State
pub mod Roles
pub mod Methods
pub mod Transfer
pub mod Calls
pub mod Ownership
pub mod Ranks
pub mod Permissions
pub mod Owners
pub mod Due
