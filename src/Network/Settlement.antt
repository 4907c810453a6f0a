-- ===== src/Network/Settlement.antt =====
-- The charges of relationships, publications and messaging on the token contract itself, in place of the
-- interface through which they see it.
use open_social_protocol.Prelude.{◌≡◌, true, false, Option, none, some, arith, if◌then◌else◌}
use open_social_protocol.Chain.{Bytes, Sdk, Env, Usage, Result, ok, reverted}
use open_social_protocol.Chain.Util.{is_empty, value}
use open_social_protocol.Chain.Util.Require.{require_address-ok}
use open_social_protocol.Token
use open_social_protocol.Token.Credits.{consume}
use open_social_protocol.Token.Invariant.{IsValid}
use open_social_protocol.Token.Keeps.{consume-IsValid}
use open_social_protocol.Network.Charges.{PaidCall, PaidCall-Charged}

-- A reverted call has a code other than zero.
abbrev pub returned : {A : Type 0} → Result A → Option A
returned (ok x) = some x
returned (reverted reason) = none

module _ ⦃sdk : Sdk⦄ where
  -- The token contract at its address, on what it sees of the chain during the nested call.
  abbrev pub token_at : Env → Bytes → Usage
  token_at inner address = record {
    Ledger = Token.State.State;
    consume = λ callee account units ledger.
        if sdk.equal callee address
        then returned (consume inner (some account) units ledger)
        else none;
  }

  settled :
      (inner : Env) (callee address account : Bytes) (before after : Token.State.State)
      → (if sdk.equal callee address
          then returned (consume inner (some account) 1 before)
          else none)
        ≡ some after
      → (sdk.equal callee address ≡ true) × (consume inner (some account) 1 before ≡ ok after)
  settled inner callee address account before after h = ground arith

  -- On the token contract itself, each of these calls is one step of it: a successful call of
  -- `request_friend`, `follow`, `publish`, `react` (but for taking a reaction back) or
  -- `request_conversation` of a contract with a token contract set has called that contract, whose
  -- `consume` has taken exactly one unit from the account that makes the call, and the state of the
  -- token contract is valid after it if it was before.
  pub PaidCall-is_token_step :
      (inner env : Env) (contract : Bytes) (token : Option Bytes) (before after : Token.State.State)
      (account : Option Bytes)
      → is_empty token ≡ false
      → IsValid before
      → PaidCall ⦃usage = token_at inner contract⦄ env token before after account
      → (value token ≡ contract)
        × (consume inner (some (value account)) 1 before ≡ ok after)
        × IsValid after
  PaidCall-is_token_step inner env contract token before after account e v call =
      let x =
        PaidCall-Charged ⦃usage = token_at inner contract⦄ env token before after account e call in
      let (called, spent) = settled inner (value token) contract x.payer before after x.consumed in
      let (payer_is, _) = require_address-ok account x.what x.payer x.address in
      (
        (sdk.equal_iff (value token) contract).0 called,
        rw (← payer_is) spent,
        consume-IsValid inner (some x.payer) 1 before after v spent,
      )
