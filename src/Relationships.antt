-- ===== src/Relationships.antt =====
-- packages/contracts/relationships/assembly/Relationships.ts
pub mod State
pub mod Checks
pub mod Friends
pub mod Blocks
pub mod Calls
pub mod Separation
pub mod History
pub mod Rotation
