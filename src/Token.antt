-- ===== src/Token.antt =====
-- packages/contracts/token/assembly/Token.ts
pub mod State
pub mod Credits
pub mod Methods
pub mod Support
pub mod Bounds
pub mod Balances
pub mod Invariant
pub mod Keeps
pub mod Mint
pub mod History
pub mod Once
pub mod Caps
pub mod Effects
