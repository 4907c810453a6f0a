-- ===== src/Examples/NetworkRuns.antt =====
-- The relationships contract charging an account through the token contract.
use open_social_protocol.Prelude.{◌≡◌, refl, some, none, false}
use open_social_protocol.Chain.{Env, Usage, ok}
use open_social_protocol.Chain.Util.{compare, is_empty, value, require_address}
use open_social_protocol.Chain.Actor.{exists, require_authorized}
use open_social_protocol.Token
use open_social_protocol.Token.Credits.{cfg, load, save, spend, regenerate, consume}
use open_social_protocol.Token.Methods.{init}
use open_social_protocol.Token.Invariant.{IsValid, fresh-IsValid}
use open_social_protocol.Token.History.{Reach-IsValid, Step, here, next}
use open_social_protocol.Relationships
use open_social_protocol.Relationships.Checks.{
  set_identity_contract, set_token_contract, identity_contract, has_blocked, pair_key,
  require_not_blocked,
}
use open_social_protocol.Relationships.Friends.{request_friend, next_nonce}
use open_social_protocol.Network.Charges.{PaidCall}
use open_social_protocol.Network.Settlement.{token_at, PaidCall-is_token_step}
use open_social_protocol.Examples.Mock.{mock, address, chain_at, after}

-- The token contract sees the relationships contract as its caller.
abbrev inner : Env
inner = record (chain_at 43200000) { caller = some (address 4) }

instance abbrev on_token : Usage
on_token = token_at inner (address 8)

abbrev tokens : Token.State.State
tokens = after Token.State.fresh (
    init inner (some (address 3)) (some (address 4)) (some (address 5)) (some (address 6))
      Token.State.fresh)

tokens-Step : Step inner Token.State.fresh tokens
unfolding init require_address
tokens-Step =
    Step.inits (some (address 3)) (some (address 4)) (some (address 5)) (some (address 6)) refl

tokens-IsValid : IsValid tokens
tokens-IsValid = Reach-IsValid (next inner here tokens-Step) fresh-IsValid

abbrev priced : Relationships.State.State
priced =
    after (Relationships.State.fresh tokens)
      (set_token_contract (chain_at 1) (some (address 8)) (Relationships.State.fresh tokens))

abbrev ready : Relationships.State.State
ready = after priced (set_identity_contract (chain_at 1) (some (address 3)) priced)

abbrev asked : Relationships.State.State
asked = after ready (request_friend (chain_at 2) (some (address 1)) (some (address 2)) none ready)

asked-ok : request_friend (chain_at 2) (some (address 1)) (some (address 2)) none ready ≡ ok asked
unfolding request_friend set_identity_contract set_token_contract identity_contract require_address
    require_authorized exists has_blocked require_not_blocked pair_key compare next_nonce consume
    Relationships.Checks.consume init cfg spend load save regenerate is_empty
asked-ok = refl

set-ok : is_empty ready.token ≡ false
unfolding set_identity_contract set_token_contract require_address is_empty
set-ok = refl

ready-IsValid : IsValid ready.ledger
unfolding set_identity_contract set_token_contract require_address
ready-IsValid = tokens-IsValid

PaidCall-is_token_step_example :
    (value ready.token ≡ address 8)
    × (consume inner (some (address 1)) 1 ready.ledger ≡ ok asked.ledger)
    × IsValid asked.ledger
PaidCall-is_token_step_example =
    PaidCall-is_token_step inner (chain_at 2) (address 8) ready.token ready.ledger asked.ledger
      (some (address 1)) set-ok ready-IsValid
      (PaidCall.requests (some (address 1)) (some (address 2)) none ready asked asked-ok)
