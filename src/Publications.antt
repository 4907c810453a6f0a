-- ===== src/Publications.antt =====
-- packages/contracts/publications/assembly/Publications.ts
pub mod State
pub mod Checks
pub mod Arguments
pub mod Publish
pub mod Methods
pub mod Calls
pub mod Effects
pub mod History
pub mod Sequence
pub mod Numbers
pub mod Outcomes
pub mod Replies
pub mod Deleted
