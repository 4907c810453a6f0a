-- ===== src/Examples/TokenRuns.antt =====
-- The token contract on concrete inputs.
use open_social_protocol.Prelude.{
  ℕ, ◌≡◌, refl, some, none, true, [], ◌∷◌, ◌<◌, ◌≤◌, ◌≢◌, ◌⊎◌, ◌↔◌, ◌+◌, ◌*◌, arith, replicate,
}
use open_social_protocol.Chain.{Bytes, Env, ok}
use open_social_protocol.Chain.Util.{require_address, require_bytes}
use open_social_protocol.Chain.Actor.{require_authorized, exists}
use open_social_protocol.Token.State.{AccountState, State, fresh, max_supply}
use open_social_protocol.Token.Credits.{cfg, load, save, spend, regenerate}
use open_social_protocol.Token.Methods.{init, transfer, take_out, bring_in, moved_credits}
use open_social_protocol.Token.Support.{
  support, support_checks, record_support, mint, reward_for, counter,
}
use open_social_protocol.Token.Invariant.{supply_of, IsValid, fresh-IsValid}
use open_social_protocol.Token.History.{Step, Reach, here, next, Reach-IsValid, Reach-fresh-backed}
use open_social_protocol.Token.Once.{support_once}
use open_social_protocol.Token.Caps.{IsCapped, Reach-fresh-IsCapped}
use open_social_protocol.Token.Balances.{sum_balances}
use open_social_protocol.Token.Bounds.{IsSound, IsPaid}
use open_social_protocol.Token.Effects.{
  Moved, regenerate_split, spend_exact, spend_effect, transfer_effect,
}
use open_social_protocol.Examples.Mock.{mock, address, chain_at, after}

abbrev noon : Env
noon = chain_at 43200000

abbrev configured : State
configured =
    after fresh
      (init noon (some (address 3)) (some (address 4)) (some (address 5)) (some (address 6)) fresh)

abbrev post : Bytes
post = replicate 32 8

configured-Step : Step noon fresh configured
unfolding init require_address
configured-Step =
    Step.inits (some (address 3)) (some (address 4)) (some (address 5)) (some (address 6)) refl

abbrev supported_once : State × ℕ
supported_once = after (configured, 0) (support noon (some (address 1)) (some post) none configured)

supported_once-ok :
    support noon (some (address 1)) (some post) none configured
    ≡ ok (supported_once.0, supported_once.1)
unfolding support support_checks record_support mint reward_for counter init require_address
    require_bytes require_authorized cfg spend save load regenerate
supported_once-ok = refl

history : Reach fresh supported_once.0
history =
    next noon (next noon here configured-Step)
      (Step.supports (some (address 1)) (some post) none supported_once.1 supported_once-ok)

Reach-fresh-backed_example :
    (sum_balances supported_once.0.accounts (address 2 ∷ []) ≤ supply_of supported_once.0.config)
    × (supply_of supported_once.0.config ≤ max_supply)
Reach-fresh-backed_example = Reach-fresh-backed supported_once.0 (address 2 ∷ []) history (tt, tt)

Reach-fresh-IsCapped_example : IsCapped supported_once.0
Reach-fresh-IsCapped_example = Reach-fresh-IsCapped supported_once.0 history

support_once_example :
    support (chain_at 172800000) (some (address 1)) (some post) (some (address 2)) supported_once.0
    ≢ ok (supported_once.0, 1)
support_once_example =
    support_once noon (chain_at 172800000) (some (address 1)) (some post) none (some (address 2))
      configured supported_once.0 supported_once.0 supported_once.0 supported_once.1 1
      supported_once-ok here

valid : IsValid supported_once.0
valid = Reach-IsValid history fresh-IsValid

-- The recipient of the reward sends its token to the actor.
abbrev moved : State
moved =
    after supported_once.0 (transfer noon (some (address 2)) (some (address 1)) 1 supported_once.0)

moved-ok : transfer noon (some (address 2)) (some (address 1)) 1 supported_once.0 ≡ ok moved
unfolding transfer exists take_out bring_in moved_credits support support_checks record_support mint
    reward_for counter init require_address require_bytes require_authorized cfg spend save load
    regenerate
moved-ok = refl

address_2 : require_address (some (address 2)) "from" ≡ ok (address 2)
unfolding require_address
address_2 = refl

address_1 : require_address (some (address 1)) "to" ≡ ok (address 1)
unfolding require_address
address_1 = refl

transfer_effect_example :
    ((a b : AccountState) × (moved.accounts (address 2) ≡ some a)
      × (moved.accounts (address 1) ≡ some b)
      × Moved 1
          (load noon supported_once.0 (address 2))
          (load noon supported_once.0 (address 1))
          a
          b)
    × (moved.config ≡ supported_once.0.config)
    × ((j : Bytes)
        → (mock.equal (address 2) j ≡ true)
          ⊎ (mock.equal (address 1) j ≡ true)
          ⊎ (moved.accounts j ≡ supported_once.0.accounts j))
transfer_effect_example =
    transfer_effect noon (some (address 2)) (some (address 1)) 1 supported_once.0 moved (address 2)
      (address 1) valid address_2 address_1 moved-ok

spend_exact_example :
    ((0 < 1)
      × (1 ≤ 100)
      × (1 * 1000
          ≤ (load noon supported_once.0 (address 1)).free_credits
            + (load noon supported_once.0 (address 1)).token_credits))
    ↔ ((t : State) × (spend noon (address 1) 1 supported_once.0 ≡ ok t))
spend_exact_example = spend_exact noon (address 1) 1 supported_once.0 valid

abbrev spent : State
spent = after supported_once.0 (spend noon (address 1) 1 supported_once.0)

spent-ok : spend noon (address 1) 1 supported_once.0 ≡ ok spent
unfolding support support_checks record_support mint reward_for counter init require_address
    require_bytes require_authorized cfg spend save load regenerate
spent-ok = refl

spend_effect_example :
    ((a : AccountState) × (spent.accounts (address 1) ≡ some a)
      × IsPaid (load noon supported_once.0 (address 1)) (1 * 1000) a)
    × ((j : Bytes)
        → (mock.equal (address 1) j ≡ true) ⊎ (spent.accounts j ≡ supported_once.0.accounts j))
spend_effect_example = spend_effect noon (address 1) 1 supported_once.0 spent valid spent-ok

-- An account of three tokens that has used everything.
abbrev used_up : AccountState
used_up = record { balance = 3; free_credits = 0; token_credits = 0; updated_at = 1000 }

used_up-IsSound : IsSound used_up
used_up-IsSound = record {
  supply_bound = omega arith;
  free_bound = omega arith;
  credit_bound = omega arith;
}

regenerate_split_example :
    ((regenerate 50000 (regenerate 20000 used_up)).free_credits
      ≤ (regenerate 50000 used_up).free_credits)
    × ((regenerate 50000 (regenerate 20000 used_up)).token_credits
        ≤ (regenerate 50000 used_up).token_credits)
regenerate_split_example =
    regenerate_split 20000 50000 used_up used_up-IsSound (omega arith) (omega arith)
