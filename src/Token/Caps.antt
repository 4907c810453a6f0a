-- ===== src/Token/Caps.antt =====
-- The daily caps of the Support rewards, over any history of calls and policy changes.
use open_social_protocol.Prelude.{
  ℕ, ◌/◌, ◌≤◌, ◌≡◌, ◌∙◌, refl, ap, Option, none, some, arith, inl, inr, Bool-cases, ltb, subst,
}
use open_social_protocol.Chain.{Bytes, Sdk, Env, ok}
use open_social_protocol.Token.State.{day_ms, Config, RewardState, State, fresh}
use open_social_protocol.Token.Credits.{save}
use open_social_protocol.Token.Methods.{init, set_reward_policy}
use open_social_protocol.Token.Support.{record_support, mint, counter, count, reward_for}
use open_social_protocol.Token.Keeps.{consume-spend, transfer-Transferred}
use open_social_protocol.Token.Mint.{burn-Burned, support-Supported, checked_facts, spend-config}
use open_social_protocol.Token.History.{
  Step, inits, sets_policy, consumes, transfers, burns, supports, Reach, here, next,
}

-- The pilot's bounds on the reward policy.
pub record IsPilot (c : Config) : Type 0 where
  pub reward : c.reward_amount ≤ 10
  pub daily : c.daily_reward_cap ≤ 10000
  pub recipient : c.recipient_daily_cap ≤ 100

abbrev pub Policy : Option Config → Type 0
Policy none = Unit
Policy (some c) = IsPilot c

abbrev pub MintedAtMost : ℕ → Option RewardState → Type 0
MintedAtMost n none = Unit
MintedAtMost n (some r) = r.minted ≤ n

counter-MintedAtMost :
    (day n : ℕ) (r : Option RewardState) → MintedAtMost n r → (counter day r).minted ≤ n
unfolding counter
counter-MintedAtMost day n none h = omega arith
counter-MintedAtMost day n (some r) h = ground arith

-- A reward stays within the policy's amount and within what is left of both daily caps.
reward_for-room :
    (c : Config) (global user : RewardState)
    → IsPilot c
    → global.minted ≤ 10000
    → user.minted ≤ 100
    → ((count (reward_for c global user) global).minted ≤ 10000)
      × ((count (reward_for c global user) user).minted ≤ 100)
unfolding reward_for
reward_for-room c global user p g u = (ground arith, ground arith)

module _ ⦃sdk : Sdk⦄ where
  open sdk use {get, put, equal, get-put, get-empty}

  pub record IsCapped (s : State) : Type 0 where
    pub policy : Policy s.config
    pub network : MintedAtMost 10000 s.global
    pub users : (k : Bytes) → MintedAtMost 100 (get s.rewards k)

  fresh-IsCapped : IsCapped fresh
  fresh-IsCapped = record {
    policy = tt;
    network = tt;
    users = λ k. rw (get-empty {V = RewardState} k) tt;
  }

  mint-rewards :
      (env : Env) (recipient : Bytes) (reward : ℕ) (c : Config) (s : State)
      → (mint env recipient reward c s).rewards ≡ s.rewards
  unfolding mint save
  mint-rewards env recipient reward c s = ground arith

  mint-global :
      (env : Env) (recipient : Bytes) (reward : ℕ) (c : Config) (s : State)
      → (mint env recipient reward c s).global ≡ s.global
  unfolding mint save
  mint-global env recipient reward c s = ground arith

  mint-Policy :
      (env : Env) (recipient : Bytes) (reward : ℕ) (c : Config) (s : State)
      → IsPilot c
      → Policy s.config
      → Policy (mint env recipient reward c s).config
  unfolding mint save
  mint-Policy env recipient reward c s p q = elim (Bool-cases (ltb 0 reward)) [
    | inl paid ↦ rw paid (omega arith)
    | inr unpaid ↦ rw unpaid q
  ]

  -- What does not write the counters, and keeps the policy, keeps the caps.
  same-IsCapped :
      (s t : State)
      → IsCapped s
      → t.rewards ≡ s.rewards
      → t.global ≡ s.global
      → Policy t.config
      → IsCapped t
  same-IsCapped s t v er eg p = record {
    policy = p;
    network = rw eg v.network;
    users = λ k. rw er (v.users k);
  }

  record_support-IsCapped :
      (env : Env) (a id recipient : Bytes) (c : Config) (s : State)
      → IsCapped s
      → s.config ≡ some c
      → IsCapped (record_support env a id recipient c s).0
  unfolding record_support
  record_support-IsCapped env a id recipient c s v e =
      let day : ℕ = env.now / day_ms in
      let global = counter day s.global in
      let user = counter day (get s.rewards recipient) in
      let reward = reward_for c global user in
      let p : IsPilot c = subst Policy e v.policy in
      let fits =
        reward_for-room c global user p (counter-MintedAtMost day 10000 s.global v.network)
          (counter-MintedAtMost day 100 (get s.rewards recipient) (v.users recipient)) in
      record {
        policy = mint-Policy env recipient reward c _ p (rw e p);
        network = rw mint-global fits.0;
        users = λ k.
            rw (mint-rewards, get-put)
              (elim (Bool-cases (equal recipient k)) [
                | inl there ↦ rw there fits.1
                | inr other ↦ rw other (v.users k)
              ]);
      }

  set_reward_policy-Policy :
      (env : Env) (x y z : ℕ) (s t : State) → set_reward_policy env x y z s ≡ ok t → Policy t.config
  unfolding set_reward_policy
  set_reward_policy-Policy env x y z s t e = ground arith

  Step-IsCapped : (env : Env) (s t : State) → Step env s t → IsCapped s → IsCapped t
  unfolding init set_reward_policy save
  Step-IsCapped env s t (inits i p q m e) v =
      same-IsCapped s t v (ground arith) (ground arith) (ground arith)
  Step-IsCapped env s t (sets_policy x y z e) v =
      same-IsCapped s t v (ground arith) (ground arith) (set_reward_policy-Policy env x y z s t e)
  Step-IsCapped env s t (consumes account units e) v =
      let (a, _, spent) = consume-spend env account units s t e in
      let kept = spend-config env a units s t spent in
      same-IsCapped s t v (kept.2) (kept.3) (rw (kept.0) v.policy)
  Step-IsCapped env s t (transfers from to value e) v =
      let x = transfer-Transferred env from to value s t e in
      rw x.saved (same-IsCapped s _ v refl refl v.policy)
  Step-IsCapped env s t (burns from value e) v =
      let x = burn-Burned env from value s t e in
      let p : IsPilot x.c = subst Policy x.configured v.policy in
      rw x.saved (same-IsCapped s _ v refl refl (omega arith))
  Step-IsCapped env s t (supports actor post_id device reward e) v =
      let y = support-Supported env actor post_id device s t reward e in
      let x = y.x in
      let facts = checked_facts env actor post_id device s x y.passed in
      let kept = spend-config env x.actor 1 s y.paid y.spent in
      let w = same-IsCapped s y.paid v (kept.2) (kept.3) (rw (kept.0) v.policy) in
      subst IsCapped (ap (λ (r : State × ℕ). r.0) y.recorded)
        (record_support-IsCapped env x.actor x.id x.recipient x.config y.paid w (kept.0 ∙ facts.0))

  -- After any history of calls on a new contract, changes of the policy included, the reward counter
  -- of the network is at most 10000 and that of each recipient at most 100, and the stored policy is
  -- within the pilot's bounds (10 for each reward, 10000 and 100 for a day).
  pub Reach-fresh-IsCapped : (s : State) → Reach fresh s → IsCapped s
  Reach-fresh-IsCapped s r = go r
    where
      go : {u : State} → Reach fresh u → IsCapped u
      go here = fresh-IsCapped
      go (next {t} {u} env q st) = Step-IsCapped env t u st (go q)
