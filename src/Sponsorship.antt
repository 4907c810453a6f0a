-- ===== src/Sponsorship.antt =====
-- packages/contracts/sponsorship/assembly/Sponsorship.ts
pub mod State
pub mod Sponsors
pub mod Grants
pub mod Authority
