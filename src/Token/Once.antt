-- ===== src/Token/Once.antt =====
-- An account supports a post at most once, over any history of calls.
use open_social_protocol.Prelude.{
  ℕ, ◌≡◌, ◌≢◌, ◌∙◌, refl, sym, ap₂, Option-cases, false, Option, none, some, [], ◌∷◌, arith, ap,
  inl, inr, Bool-cases,
}
use open_social_protocol.Chain.{Bytes, Sdk, Env, ok, ok-injective}
use open_social_protocol.Chain.Util.{concat}
use open_social_protocol.Token.State.{Config, RewardState, State}
use open_social_protocol.Token.Credits.{save}
use open_social_protocol.Token.Methods.{init, set_reward_policy}
use open_social_protocol.Token.Support.{support, record_support, mint}
use open_social_protocol.Token.Keeps.{consume-spend, transfer-Transferred}
use open_social_protocol.Token.Mint.{burn-Burned, support-Supported, checked_facts, spend-config}
use open_social_protocol.Token.History.{
  Step, inits, sets_policy, consumes, transfers, burns, supports, Reach, here, next,
}

module _ ⦃sdk : Sdk⦄ where
  open sdk use {get, put, equal, get-put, equal_iff}

  mint-supports :
      (env : Env) (recipient : Bytes) (reward : ℕ) (c : Config) (s : State)
      → (mint env recipient reward c s).supports ≡ s.supports
  unfolding mint save
  mint-supports env recipient reward c s = ground arith

  -- The new record stands under the key of the actor and the post, and no other record changes.
  record_support-supports_self :
      (env : Env) (a id recipient : Bytes) (c : Config) (s : State)
      → get (record_support env a id recipient c s).0.supports (concat (a ∷ id ∷ [])) ≢ none
  unfolding record_support
  record_support-supports_self env a id recipient c s e =
      let k = concat (a ∷ id ∷ []) in cc (rw (mint-supports, get-put, (equal_iff k k).1 refl) at e)

  record_support-supports_ne :
      (env : Env) (a id recipient : Bytes) (c : Config) (s : State) (k : Bytes)
      → equal (concat (a ∷ id ∷ [])) k ≡ false
      → get (record_support env a id recipient c s).0.supports k ≡ get s.supports k
  unfolding record_support
  record_support-supports_ne env a id recipient c s k ne = rw (mint-supports, get-put, ne)

  -- A record of support is never changed and never removed.
  pub Step-keeps_support :
      (env : Env) (s t : State) (k : Bytes) (r : RewardState)
      → Step env s t
      → get s.supports k ≡ some r
      → get t.supports k ≡ some r
  unfolding init set_reward_policy save
  Step-keeps_support env s t k r (inits i p q m e) h = ground arith
  Step-keeps_support env s t k r (sets_policy x y z e) h = ground arith
  Step-keeps_support env s t k r (consumes account units e) h =
      let (a, _, spent) = consume-spend env account units s t e in
      rw ((spend-config env a units s t spent).1) h
  Step-keeps_support env s t k r (transfers from to value e) h =
      rw (ap (λ (z : State). z.supports) (transfer-Transferred env from to value s t e).saved) h
  Step-keeps_support env s t k r (burns from value e) h =
      rw (ap (λ (z : State). z.supports) (burn-Burned env from value s t e).saved) h
  Step-keeps_support env s t k r (supports actor post_id device reward e) h =
      let y = support-Supported env actor post_id device s t reward e in
      let x = y.x in
      let facts = checked_facts env actor post_id device s x y.passed in
      let kept = spend-config env x.actor 1 s y.paid y.spent in
      let same = ap (λ (z : State × ℕ). z.0.supports) y.recorded in
      elim (Bool-cases (equal (concat (x.actor ∷ x.id ∷ [])) k)) [
        | inl there ↦ ground (arith, equal_iff (concat (x.actor ∷ x.id ∷ [])) k)
        | inr other ↦ rw (← same) (
            record_support-supports_ne env x.actor x.id x.recipient x.config y.paid k other
            ∙ (rw kept.1 h))
      ]

  Reach-keeps_support :
      {s t : State} (k : Bytes) (r : RewardState)
      → Reach s t
      → get s.supports k ≡ some r
      → get t.supports k ≡ some r
  Reach-keeps_support k r here h = h
  Reach-keeps_support k r (next {t} {u} env rest st) h =
      Step-keeps_support env t u k r st (Reach-keeps_support k r rest h)

  -- Once a call of `support` by an actor for a post has succeeded, then after any further calls, at
  -- any time and with any device, no call of `support` by that actor for that post succeeds.
  pub support_once :
      (env later : Env) (actor post_id device device' : Option Bytes) (s t u w : State) (n m : ℕ)
      → support env actor post_id device s ≡ ok (t, n)
      → Reach t u
      → support later actor post_id device' u ≢ ok (w, m)
  support_once env later actor post_id device device' s t u w n m first r second =
      let y = support-Supported env actor post_id device s t n first in
      let z = support-Supported later actor post_id device' u w m second in
      let f = checked_facts env actor post_id device s y.x y.passed in
      let g = checked_facts later actor post_id device' u z.x z.passed in
      let k = concat (y.x.actor ∷ y.x.id ∷ []) in
      let j = concat (z.x.actor ∷ z.x.id ∷ []) in
      let e : k ≡ j =
        ap₂ (λ p q. concat (p ∷ q ∷ [])) (ok-injective (sym (f.3) ∙ g.3))
          (ok-injective (sym (f.4) ∙ g.4)) in
      let recorded = ap (λ (z : State × ℕ). z.0.supports) y.recorded in
      elim (Option-cases (get t.supports k)) [
        | inl missing ↦
            record_support-supports_self env y.x.actor y.x.id y.x.recipient y.x.config y.paid
              (rw recorded missing)
        | inr (rec, found) ↦
            let still = Reach-keeps_support k rec r found in cc (rw e at still, g.2)
      ]
