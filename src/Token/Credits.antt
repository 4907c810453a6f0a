-- ===== src/Token/Credits.antt =====
-- Loading, saving and spending: `load`, `save`, `spend`, `consume`, and the read methods.
use Prim.Native.Nat.{min}
use open_social_protocol.Prelude.{
  ℕ, ◌-◌, ◌/◌, Bool, false, Option, none, some, [], ◌∷◌, ◌&&◌, ◌||◌, leb, ltb, if◌then◌else◌,
}
use open_social_protocol.Chain.{
  Bytes, Sdk, Env, Result, ok, ◌>>=◌, ◌>>◌, require, require_some, add64, sub64, mul64,
}
use open_social_protocol.Chain.Util.{require_address}
use open_social_protocol.Token.State.{
  day_ms, free_max, per_token, AccountState, Config, account_updated, State, emit,
}

-- The milliseconds to regenerate for: at most a day, and none if the clock ran back.
abbrev pub elapsed : ℕ → ℕ → ℕ
elapsed now updated_at = if ltb updated_at now then min (now - updated_at) day_ms else 0

-- `load` on an account that is stored.
unfoldable pub regenerate : ℕ → AccountState → AccountState
regenerate now a =
    let dt = elapsed now a.updated_at in
    let cap = mul64 a.balance per_token in
    record a {
      free_credits = min free_max (add64 a.free_credits (mul64 free_max dt / day_ms));
      token_credits = min cap (add64 a.token_credits (mul64 cap dt / day_ms));
      updated_at = now;
    }

-- `load` on an account that is not stored.
abbrev pub new_account : ℕ → AccountState
new_account now = record {
  balance = 0;
  free_credits = free_max;
  token_credits = 0;
  updated_at = now;
}

abbrev pub load_stored : ℕ → Option AccountState → AccountState
load_stored now none = new_account now
load_stored now (some a) = regenerate now a

-- The account after its free credits, and then its token credits, have paid.
abbrev pub pay : AccountState → ℕ → AccountState
pay a cost =
    let free = min a.free_credits cost in
    record a {
      free_credits = sub64 a.free_credits free;
      token_credits = sub64 a.token_credits (sub64 cost free);
    }

module _ ⦃sdk : Sdk⦄ where
  open sdk use {get, put, equal}

  -- Token.cfg
  unfoldable pub cfg : State → Result Config
  cfg s = require_some s.config "token not configured"

  -- Token.load
  unfoldable pub load : Env → State → Bytes → AccountState
  load env s account = load_stored env.now (get s.accounts account)

  -- Token.save
  unfoldable pub save : Env → Bytes → AccountState → State → State
  save env account a s =
      emit (account_updated account a env.now) (account ∷ [])
        (record s { accounts = put s.accounts account a })

  -- Token.spend
  unfoldable pub spend : Env → Bytes → ℕ → State → Result State
  spend env account units s = do
    require (ltb 0 units && leb units 100) "invalid usage cost"
    let cost = mul64 units 1000
    let a = load env s account
    require (leb cost (add64 a.free_credits a.token_credits))
        "usage allowance exhausted; wait for regeneration"
    ok (save env account (pay a cost) s)

  abbrev pub is_protocol_contract : Config → Option Bytes → Bool
  is_protocol_contract c none = false
  is_protocol_contract c (some caller) =
      equal caller c.publications || equal caller c.messaging || equal caller c.relationships

  -- Token.consume
  unfoldable pub consume : Env → Option Bytes → ℕ → State → Result State
  consume env account units s = do
    c ← cfg s
    require (is_protocol_contract c env.caller) "only protocol contracts may consume credits"
    addr ← require_address account "account"
    spend env addr units s

  -- Token.get_account: the account and its capacity.
  unfoldable pub get_account : Env → Option Bytes → State → Result (AccountState × ℕ)
  get_account env account s = do
    addr ← require_address account "account"
    let a = load env s addr
    ok (a, add64 free_max (mul64 a.balance per_token))

  -- Token.balance_of
  unfoldable pub balance_of : Env → Option Bytes → State → Result ℕ
  balance_of env owner s = do addr ← require_address owner "owner"; ok (load env s addr).balance

  -- Token.total_supply
  unfoldable pub total_supply : State → Result ℕ
  total_supply s = do c ← cfg s; ok c.supply
