-- ===== src/Network.antt =====
-- The contracts that charge their users, on the token contract itself.
pub mod Charges
pub mod Settlement
