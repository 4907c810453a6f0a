-- ===== src/Identity.antt =====
-- packages/contracts/identity/assembly/Identity.ts
pub mod State
pub mod Resolve
pub mod Keys
pub mod Devices
pub mod Policy
pub mod Recovery
pub mod Actors
pub mod Calls
pub mod RecoveryCalls
pub mod Effects
pub mod Owners
pub mod Guardians
pub mod Approvals
pub mod Validity
pub mod Guarded
pub mod Quorum
