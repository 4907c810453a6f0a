-- ===== src/Token/Mint.antt =====
-- `burn` and `support`: the methods that change the supply keep the invariant.
use open_social_protocol.Prelude.{
  ℕ, ◌+◌, ◌-◌, ◌<◌, ◌≤◌, ◌≡◌, ap, subst, ◌∙◌, ◌/◌, false, Option, none, some, [], ◌∷◌, arith, ltb,
  inl, inr, Bool-cases,
}
use open_social_protocol.Chain.{Bytes, Sdk, Env, ok, sub64, add64, >>=-eq-ok, ok-injective}
use open_social_protocol.Chain.Util.{require_address, require_bytes, concat}
use open_social_protocol.Token.State.{day_ms, max_supply, Config, RewardState, State, emit, burned}
use open_social_protocol.Token.Credits.{cfg, load, save, spend}
use open_social_protocol.Token.Methods.{burn, take_out}
use open_social_protocol.Token.Support.{
  support, mint, record_support, reward_for, counter, credit, count, Checked, support_checks,
}
use open_social_protocol.Token.Bounds.{take_out-IsSound, take_out-exact, credit-IsSound}
use open_social_protocol.Token.Balances.{
  IsBacked, put-IsBacked_grow, put-IsBacked_shrink, balance-le-supply,
}
use open_social_protocol.Token.Invariant.{
  supply_of, IsValid, load-balance, load-IsSound, put-IsSound,
}
use open_social_protocol.Token.Keeps.{spend-IsValid}

module _ ⦃sdk : Sdk⦄ where
  open sdk use {get, put, equal, get-put}

  abbrev pub after_burn : Env → Bytes → ℕ → Config → State → State
  after_burn env f value c s = emit (burned f value env.now) (f ∷ []) (
      save env f (take_out (load env s f) value)
        (record s { config = some (record c { supply = sub64 c.supply value }) }))

  -- What a successful `burn` has checked and done.
  pub record Burned (env : Env) (from : Option Bytes) (value : ℕ) (s s' : State) : Type 0 where
    pub f : Bytes
    pub c : Config
    pub from_address : require_address from "from" ≡ ok f
    pub configured : s.config ≡ some c
    pub positive : 0 < value
    pub covered : value ≤ (load env s f).balance
    pub saved : s' ≡ after_burn env f value c s

  pub burn-Burned :
      (env : Env) (from : Option Bytes) (value : ℕ) (s s' : State)
      → burn env from value s ≡ ok s'
      → Burned env from value s s'
  unfolding burn cfg
  burn-Burned env from value s s' h = ground arith

  pub burn-IsValid :
      (env : Env) (from : Option Bytes) (value : ℕ) (s s' : State)
      → IsValid s
      → burn env from value s ≡ ok s'
      → IsValid s'
  unfolding save
  burn-IsValid env from value s s' v h =
      let x = burn-Burned env from value s s' h in
      let a = load env s x.f in
      let ha = load-IsSound env s x.f v in
      let supply : supply_of s.config ≡ x.c.supply = ap supply_of x.configured in
      let bound = balance-le-supply s.accounts (supply_of s.config) x.f v.backed in
      let back = load-balance env s x.f in
      let left : sub64 x.c.supply value ≡ x.c.supply - value = omega (arith, v.capped) in
      let grown : supply_of s.config ≡ x.c.supply - value + value = omega arith in
      let out = take_out-exact a value ha x.positive x.covered in
      rw x.saved (record {
        capped = omega (arith, v.capped);
        sound =
            put-IsSound s x.f (take_out a value) v
              (take_out-IsSound a value ha x.positive x.covered);
        backed = rw left (
            put-IsBacked_shrink s.accounts (x.c.supply - value) value x.f (take_out a value)
              (subst (λ n. IsBacked s.accounts n) grown v.backed) (omega arith));
      })

  -- The state that `support` leaves, before the reward is paid out.
  reward-fits :
      (c : Config) (global user : RewardState)
      → c.supply ≤ max_supply
      → c.supply + reward_for c global user ≤ max_supply
  unfolding reward_for
  reward-fits c global user h = omega arith

  pub mint-IsValid :
      (env : Env) (recipient : Bytes) (reward : ℕ) (c : Config) (s : State)
      → IsValid s
      → s.config ≡ some c
      → c.supply + reward ≤ max_supply
      → IsValid (mint env recipient reward c s)
  unfolding mint save
  mint-IsValid env recipient reward c s v e fits = elim (Bool-cases (ltb 0 reward)) [
    | inr nothing ↦ rw nothing v
    | inl some_reward ↦
        let a = load env s recipient in
        let bound = balance-le-supply s.accounts (supply_of s.config) recipient v.backed in
        let supply : supply_of s.config ≡ c.supply = ap supply_of e in
        let grown : add64 c.supply reward ≡ c.supply + reward = omega arith in
        let paid =
          credit-IsSound a reward (load-IsSound env s recipient v)
            (omega (arith, load-balance env s recipient)) in
        rw some_reward (record {
          capped = omega arith;
          sound = put-IsSound s recipient (credit reward a) v paid.0;
          backed = rw grown (
              put-IsBacked_grow s.accounts c.supply reward recipient (credit reward a)
                (subst (λ n. IsBacked s.accounts n) supply v.backed)
                (omega (arith, load-balance env s recipient)));
        })
  ]

  pub record_support-IsValid :
      (env : Env) (actor id recipient : Bytes) (c : Config) (s : State)
      → IsValid s
      → s.config ≡ some c
      → IsValid (record_support env actor id recipient c s).0
  unfolding record_support
  record_support-IsValid env actor id recipient c s v e =
      let day : ℕ = env.now / day_ms in
      let global = counter day s.global in
      let user = counter day (get s.rewards recipient) in
      let reward = reward_for c global user in
      let s' : State = record s {
        supports =
            put s.supports (concat (actor ∷ id ∷ [])) (record { day = day; minted = reward });
        global = some (count reward global);
        rewards = put s.rewards recipient (count reward user);
      } in
      let v' : IsValid s' = record { capped = v.capped; sound = v.sound; backed = v.backed } in
      let supply : supply_of s.config ≡ c.supply = ap supply_of e in
      let w =
        mint-IsValid env recipient reward c s' v' e
          (reward-fits c global user (omega (arith, v.capped))) in
      record { capped = w.capped; sound = w.sound; backed = w.backed }

  -- The two halves of a successful `support`.
  pub record Supported (env : Env) (actor post_id device : Option Bytes) (s s' : State) (reward : ℕ)
      : Type 0 where
    pub x : Checked
    pub paid : State
    pub passed : support_checks env actor post_id device s ≡ ok x
    pub spent : spend env x.actor 1 s ≡ ok paid
    pub recorded : record_support env x.actor x.id x.recipient x.config paid ≡ (s', reward)

  pub support-Supported :
      (env : Env) (actor post_id device : Option Bytes) (s s' : State) (reward : ℕ)
      → support env actor post_id device s ≡ ok (s', reward)
      → Supported env actor post_id device s s' reward
  unfolding support
  support-Supported env actor post_id device s s' reward h =
      let (x, passed, rest) = >>=-eq-ok (support_checks env actor post_id device s) _ h in
      let (paid, spent, last) = >>=-eq-ok (spend env x.actor 1 s) _ rest in
      record { x = x; paid = paid; passed = passed; spent = spent; recorded = ok-injective last }

  pub checked_facts :
      (env : Env) (actor post_id device : Option Bytes) (s : State) (x : Checked)
      → support_checks env actor post_id device s ≡ ok x
      → (s.config ≡ some x.config)
        × (equal x.actor x.recipient ≡ false)
        × (get s.supports (concat (x.actor ∷ x.id ∷ [])) ≡ none)
        × (require_address actor "actor" ≡ ok x.actor)
        × (require_bytes post_id 32 "post id" ≡ ok x.id)
  unfolding support_checks cfg
  checked_facts env actor post_id device s x h = ground arith

  pub spend-config :
      (env : Env) (k : Bytes) (units : ℕ) (s t : State)
      → spend env k units s ≡ ok t
      → (t.config ≡ s.config)
        × (t.supports ≡ s.supports)
        × (t.rewards ≡ s.rewards)
        × (t.global ≡ s.global)
  unfolding spend save
  spend-config env k units s t h = ground arith

  pub support-IsValid :
      (env : Env) (actor post_id device : Option Bytes) (s s' : State) (reward : ℕ)
      → IsValid s
      → support env actor post_id device s ≡ ok (s', reward)
      → IsValid s'
  support-IsValid env actor post_id device s s' reward v h =
      let y = support-Supported env actor post_id device s s' reward h in
      let x = y.x in
      let facts = checked_facts env actor post_id device s x y.passed in
      let kept = spend-config env x.actor 1 s y.paid y.spent in
      subst IsValid (ap (λ (r : State × ℕ). r.0) y.recorded) (
        record_support-IsValid env x.actor x.id x.recipient x.config y.paid
          (spend-IsValid env x.actor 1 s y.paid v y.spent) (kept.0 ∙ facts.0))
