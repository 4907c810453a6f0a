-- ===== src/Token/Methods.antt =====
-- `init`, `set_reward_policy`, `transfer` and `burn`.
use open_social_protocol.Prelude.{
  ℕ, ◌/◌, Bool, true, false, Option, none, some, [], ◌∷◌, ◌&&◌, not, leb, ltb,
}
use open_social_protocol.Chain.{
  Bytes, Sdk, Env, Result, ok, ◌>>=◌, ◌>>◌, require, add64, sub64, mul64,
}
use open_social_protocol.Chain.Util.{require_address}
use open_social_protocol.Chain.Actor.{require_authorized, exists}
use open_social_protocol.Token.State.{
  AccountState, policy_changed, transferred, burned, State, emit,
}
use open_social_protocol.Token.Credits.{cfg, load, save}

abbrev pub is_none {ℓ} : {A : Type ℓ} → Option A → Bool
is_none none = true
is_none (some a) = false

-- The part of an account's token credits that goes with `value` of its tokens.
unfoldable pub moved_credits : AccountState → ℕ → ℕ
moved_credits a value = mul64 a.token_credits value / a.balance

-- The sender after a transfer, or the holder after a burn.
unfoldable pub take_out : AccountState → ℕ → AccountState
take_out a value = record a {
  balance = sub64 a.balance value;
  token_credits = sub64 a.token_credits (moved_credits a value);
}

-- The recipient of a transfer of `value` tokens with `credits`.
unfoldable pub bring_in : AccountState → ℕ → ℕ → AccountState
bring_in b value credits = record b {
  balance = add64 b.balance value;
  token_credits = add64 b.token_credits credits;
}

module _ ⦃sdk : Sdk⦄ where
  open sdk use {equal}

  -- Token.init
  unfoldable pub init :
      Env → Option Bytes → Option Bytes → Option Bytes → Option Bytes → State → Result State
  init env identity relationships publications messaging s = do
    require (env.authorized env.contract_id) "authorization failed"
    require (is_none s.config) "already initialized"
    i ← require_address identity "identity"
    r ← require_address relationships "relationships"
    p ← require_address publications "publications"
    m ← require_address messaging "messaging"
    ok (record s {
      config = some (record {
        identity = i;
        relationships = r;
        publications = p;
        messaging = m;
        reward_amount = 1;
        daily_reward_cap = 1000;
        recipient_daily_cap = 10;
        supply = 0;
      });
    })

  -- Token.set_reward_policy
  unfoldable pub set_reward_policy : Env → ℕ → ℕ → ℕ → State → Result State
  set_reward_policy env reward daily recipient s = do
    require (env.authorized env.contract_id) "authorization failed"
    require (leb reward 10 && leb daily 10000 && leb recipient 100)
        "reward policy exceeds pilot bounds"
    c ← cfg s
    let c' = record c {
      reward_amount = reward;
      daily_reward_cap = daily;
      recipient_daily_cap = recipient;
    }
    ok (emit (policy_changed reward daily recipient env.now) [] (record s { config = some c' }))

  -- Token.transfer
  unfoldable pub transfer : Env → Option Bytes → Option Bytes → ℕ → State → Result State
  transfer env from to value s = do
    f ← require_address from "from"
    t ← require_address to "to"
    require (not (equal f t)) "cannot transfer to yourself"
    c ← cfg s
    signer ← require_authorized env c.identity f none 0
    known ← exists env c.identity t
    require known "recipient not registered"
    let a = load env s f
    let b = load env s t
    require (ltb 0 value && leb value a.balance) "insufficient balance"
    let s' = save env f (take_out a value) s
    let s'' = save env t (bring_in b value (moved_credits a value)) s'
    ok (emit (transferred f t value env.now) (f ∷ t ∷ []) s'')

  -- Token.burn
  unfoldable pub burn : Env → Option Bytes → ℕ → State → Result State
  burn env from value s = do
    f ← require_address from "from"
    c ← cfg s
    signer ← require_authorized env c.identity f none 0
    let a = load env s f
    require (ltb 0 value && leb value a.balance) "insufficient balance"
    let s' = record s { config = some (record c { supply = sub64 c.supply value }) }
    let s'' = save env f (take_out a value) s'
    ok (emit (burned f value env.now) (f ∷ []) s'')
