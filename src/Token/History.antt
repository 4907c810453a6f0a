-- ===== src/Token/History.antt =====
-- The calls of the token contract as a step relation, and what holds after any history of calls.
use open_social_protocol.Prelude.{ℕ, ◌≡◌, ◌≤◌, Option, List}
use open_social_protocol.Chain.{Bytes, Sdk, Env, ok}
use open_social_protocol.Token.State.{max_supply, State, fresh}
use open_social_protocol.Token.Credits.{consume}
use open_social_protocol.Token.Methods.{init, set_reward_policy, transfer, burn}
use open_social_protocol.Token.Support.{support}
use open_social_protocol.Token.Balances.{sum_balances, Distinct}
use open_social_protocol.Token.Invariant.{supply_of, IsValid, fresh-IsValid}
use open_social_protocol.Token.Keeps.{
  init-IsValid, set_reward_policy-IsValid, consume-IsValid, transfer-IsValid,
}
use open_social_protocol.Token.Mint.{burn-IsValid, support-IsValid}

module _ ⦃sdk : Sdk⦄ where
  open sdk use {get, put, equal, get-put, equal_iff}

  -- One successful call of a method that writes, with the chain as `env` shows it.
  pub data Step (env : Env) (s t : State) : Type 0 where
    inits : (i r p m : Option Bytes) → init env i r p m s ≡ ok t → Step env s t
    sets_policy :
        (reward daily recipient : ℕ)
        → set_reward_policy env reward daily recipient s ≡ ok t
        → Step env s t
    consumes :
        (account : Option Bytes) (units : ℕ) → consume env account units s ≡ ok t → Step env s t
    transfers :
        (from to : Option Bytes) (value : ℕ) → transfer env from to value s ≡ ok t → Step env s t
    burns : (from : Option Bytes) (value : ℕ) → burn env from value s ≡ ok t → Step env s t
    supports :
        (actor post_id device : Option Bytes) (reward : ℕ)
        → support env actor post_id device s ≡ ok (t, reward)
        → Step env s t

  -- Any number of calls, each with its own view of the chain.
  pub data Reach (s : State) : State → Type 0 where
    here : Reach s s
    next : {t u : State} (env : Env) → Reach s t → Step env t u → Reach s u

  pub Step-IsValid : (env : Env) (s t : State) → Step env s t → IsValid s → IsValid t
  Step-IsValid env s t (inits i r p m e) v = init-IsValid env i r p m s t v e
  Step-IsValid env s t (sets_policy a b c e) v = set_reward_policy-IsValid env a b c s t v e
  Step-IsValid env s t (consumes k u e) v = consume-IsValid env k u s t v e
  Step-IsValid env s t (transfers f d x e) v = transfer-IsValid env f d x s t v e
  Step-IsValid env s t (burns f x e) v = burn-IsValid env f x s t v e
  Step-IsValid env s t (supports a i d r e) v = support-IsValid env a i d s t r v e

  pub Reach-IsValid : {s t : State} → Reach s t → IsValid s → IsValid t
  Reach-IsValid here v = v
  Reach-IsValid (next {t} {u} env r st) v = Step-IsValid env t u st (Reach-IsValid r v)

  -- After any history of calls on a new contract, the balances of any distinct accounts add up to
  -- at most the recorded supply, and the supply is at most MAX_SUPPLY.
  pub Reach-fresh-backed :
      (s : State) (ks : List Bytes)
      → Reach fresh s
      → Distinct ks
      → (sum_balances s.accounts ks ≤ supply_of s.config) × (supply_of s.config ≤ max_supply)
  Reach-fresh-backed s ks r d =
      let v = Reach-IsValid r fresh-IsValid in (v.backed.sums ks d, v.capped)
