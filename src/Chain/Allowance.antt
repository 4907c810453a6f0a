-- ===== src/Chain/Allowance.antt =====
-- The token contract as the other contracts call it.
use open_social_protocol.Prelude.{ℕ, Option}
use open_social_protocol.Chain.Storage.{Bytes}

-- The token contract's `consume`, called by its address for an account and a number of units, on
-- whatever state lies behind the call; `none` is a non-zero code.
pub record Usage : Type 1 where
  pub Ledger : Type 0
  pub consume : Bytes → Bytes → ℕ → Ledger → Option Ledger
