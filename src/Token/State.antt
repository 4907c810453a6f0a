-- ===== src/Token/State.antt =====
-- The storage and the events of the token contract, and its constants.
use open_social_protocol.Prelude.{ℕ, Option, none, List, [], ◌∷◌}
use open_social_protocol.Chain.{Bytes, Sdk}

abbrev pub day_ms : ℕ
day_ms = 86400000

-- FREE: 100 actions of 1000 resource units.
abbrev pub free_max : ℕ
free_max = 100000

abbrev pub per_token : ℕ
per_token = 1000

abbrev pub max_supply : ℕ
max_supply = 1000000

-- token.account_state
pub record AccountState : Type 0 where
  pub balance : ℕ
  pub free_credits : ℕ
  pub token_credits : ℕ
  pub updated_at : ℕ

-- token.reward_state
pub record RewardState : Type 0 where
  pub day : ℕ
  pub minted : ℕ

-- token.config; `init` stores no null address
pub record Config : Type 0 where
  pub identity : Bytes
  pub relationships : Bytes
  pub publications : Bytes
  pub messaging : Bytes
  pub reward_amount : ℕ
  pub daily_reward_cap : ℕ
  pub recipient_daily_cap : ℕ
  pub supply : ℕ

-- The osp.token.* events.
pub data Event : Type 0 where
  policy_changed : ℕ → ℕ → ℕ → ℕ → Event
  account_updated : Bytes → AccountState → ℕ → Event
  transferred : Bytes → Bytes → ℕ → ℕ → Event
  burned : Bytes → ℕ → ℕ → Event
  supported : Bytes → Bytes → Bytes → ℕ → ℕ → Event

-- The storage objects and maps of `class Token`, and what was emitted, newest first, each event
-- with its impacted addresses.
pub record State ⦃sdk : Sdk⦄ : Type 0 where
  pub config : Option Config
  pub accounts : sdk.Map AccountState
  pub supports : sdk.Map RewardState
  pub rewards : sdk.Map RewardState
  pub global : Option RewardState
  pub events : List (Event × List Bytes)

module _ ⦃sdk : Sdk⦄ where
  -- The storage of a contract that was just deployed.
  abbrev pub fresh : State
  fresh = record {
    config = none;
    accounts = sdk.empty;
    supports = sdk.empty;
    rewards = sdk.empty;
    global = none;
    events = [];
  }

  -- System.event
  abbrev pub emit : Event → List Bytes → State → State
  emit e impacted s = record s { events = (e, impacted) ∷ s.events }
