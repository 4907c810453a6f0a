-- ===== src/Token/Keeps.antt =====
-- Every method of the token contract keeps the invariant.
use open_social_protocol.Prelude.{
  ℕ, ◌+◌, ◌*◌, ◌-◌, ◌<◌, ◌≤◌, ◌≡◌, ap, subst, false, Option, [], ◌∷◌, arith, inl, inr, Bool-cases,
}
use open_social_protocol.Chain.{Bytes, Sdk, Env, ok}
use open_social_protocol.Chain.Util.{require_address}
use open_social_protocol.Token.State.{AccountState, State, emit, transferred}
use open_social_protocol.Token.Credits.{cfg, load, save, pay, spend, consume}
use open_social_protocol.Token.Methods.{
  init, set_reward_policy, transfer, take_out, bring_in, moved_credits,
}
use open_social_protocol.Token.Bounds.{
  IsSound, pay-IsSound, take_out-IsSound, take_out-exact, bring_in-IsSound, moved_credits-le,
}
use open_social_protocol.Token.Balances.{
  balance_at, IsBacked, put-IsBacked_grow, put-IsBacked_shrink, balance-le-supply, pair-le-supply,
}
use open_social_protocol.Token.Invariant.{
  supply_of, IsValid, load-balance, load-IsSound, put-IsSound, save-IsValid,
}

module _ ⦃sdk : Sdk⦄ where
  open sdk use {get, put, equal, get-put}

  -- What a successful `spend` has checked and done.
  pub record Spent (env : Env) (k : Bytes) (units : ℕ) (s t : State) : Type 0 where
    pub positive : 0 < units
    pub small : units ≤ 100
    pub covered : units * 1000 ≤ (load env s k).free_credits + (load env s k).token_credits
    pub saved : t ≡ save env k (pay (load env s k) (units * 1000)) s

  pub spend-Spent :
      (env : Env) (k : Bytes) (units : ℕ) (s t : State)
      → IsValid s
      → spend env k units s ≡ ok t
      → Spent env k units s t
  unfolding spend
  spend-Spent env k units s t v h =
      let c = load-IsSound env s k v in
      record {
        positive = ground arith;
        small = ground arith;
        covered = ground arith;
        saved = ground arith;
      }

  pub spend-IsValid :
      (env : Env) (k : Bytes) (units : ℕ) (s t : State)
      → IsValid s
      → spend env k units s ≡ ok t
      → IsValid t
  spend-IsValid env k units s t v h =
      let d = spend-Spent env k units s t v h in
      let a = load env s k in
      let c = load-IsSound env s k v in
      rw d.saved (
        save-IsValid env k (pay a (units * 1000)) s v (pay-IsSound a (units * 1000) c d.covered)
          (omega (arith, load-balance env s k)))

  -- The consume method, by one of the three protocol contracts.
  pub consume-spend :
      (env : Env) (account : Option Bytes) (units : ℕ) (s t : State)
      → consume env account units s ≡ ok t
      → (k : Bytes) × (require_address account "account" ≡ ok k) × (spend env k units s ≡ ok t)
  unfolding consume
  consume-spend env account units s t h = ground arith

  pub consume-IsValid :
      (env : Env) (account : Option Bytes) (units : ℕ) (s t : State)
      → IsValid s
      → consume env account units s ≡ ok t
      → IsValid t
  consume-IsValid env account units s t v h =
      let (k, _, e) = consume-spend env account units s t h in spend-IsValid env k units s t v e

  pub init-IsValid :
      (env : Env) (i r p m : Option Bytes) (s t : State)
      → IsValid s
      → init env i r p m s ≡ ok t
      → IsValid t
  unfolding init
  init-IsValid env i r p m s t v h = record {
    capped = ground arith;
    sound = λ k a e. ground (arith, v.sound k a);
    backed = record { sums = λ ks d. ground (arith, v.backed.sums ks d) };
  }

  pub set_reward_policy-IsValid :
      (env : Env) (reward daily recipient : ℕ) (s t : State)
      → IsValid s
      → set_reward_policy env reward daily recipient s ≡ ok t
      → IsValid t
  unfolding set_reward_policy cfg
  set_reward_policy-IsValid env reward daily recipient s t v h = record {
    capped = ground (arith, v.capped);
    sound = λ k a e. ground (arith, v.sound k a);
    backed = record { sums = λ ks d. ground (arith, v.backed.sums ks d) };
  }

  -- The state after the two writes of a transfer of `value` tokens.
  abbrev pub after_transfer : Env → Bytes → Bytes → ℕ → State → State
  after_transfer env f t value s =
      let a = load env s f in
      let b = load env s t in
      emit (transferred f t value env.now) (f ∷ t ∷ [])
        (save env t (bring_in b value (moved_credits a value)) (save env f (take_out a value) s))

  -- What a successful `transfer` has checked and done.
  pub record Transferred (env : Env) (from to : Option Bytes) (value : ℕ) (s s' : State)
      : Type 0 where
    pub f : Bytes
    pub t : Bytes
    pub from_address : require_address from "from" ≡ ok f
    pub to_address : require_address to "to" ≡ ok t
    pub distinct : equal f t ≡ false
    pub positive : 0 < value
    pub covered : value ≤ (load env s f).balance
    pub saved : s' ≡ after_transfer env f t value s

  pub transfer-Transferred :
      (env : Env) (from to : Option Bytes) (value : ℕ) (s s' : State)
      → transfer env from to value s ≡ ok s'
      → Transferred env from to value s s'
  unfolding transfer
  transfer-Transferred env from to value s s' h = ground arith

  -- Two writes that move `value` from the balance of `k` to that of `j`.
  moved-IsValid :
      (s s' : State) (k j : Bytes) (a b : AccountState) (value : ℕ)
      → IsValid s
      → IsSound a
      → IsSound b
      → equal k j ≡ false
      → a.balance + value ≡ balance_at s.accounts k
      → b.balance ≡ balance_at s.accounts j + value
      → s'.config ≡ s.config
      → s'.accounts ≡ put (put s.accounts k a) j b
      → IsValid s'
  moved-IsValid s s' k j a b value v ha hb ne ea eb ec em =
      let n : ℕ = supply_of s.config - value in
      let bound = balance-le-supply s.accounts (supply_of s.config) k v.backed in
      let grown : supply_of s.config ≡ n + value = omega arith in
      let less =
        put-IsBacked_shrink s.accounts n value k a
          (subst (λ x. IsBacked s.accounts x) grown v.backed) ea in
      record {
        capped = rw ec v.capped;
        sound = λ i c e. elim (Bool-cases (equal j i)) [
          | inl there ↦ ground (arith, get-put (put s.accounts k a) j b i)
          | inr other ↦
              put-IsSound s k a v ha i c (ground (arith, get-put (put s.accounts k a) j b i))
        ];
        backed =
            rw (em, ec, grown)
              (put-IsBacked_grow (put s.accounts k a) n value j b less
                (ground (arith, get-put s.accounts k a j)));
      }

  pub transfer-IsValid :
      (env : Env) (from to : Option Bytes) (value : ℕ) (s s' : State)
      → IsValid s
      → transfer env from to value s ≡ ok s'
      → IsValid s'
  transfer-IsValid env from to value s s' v h =
      let x = transfer-Transferred env from to value s s' h in
      let a = load env s x.f in
      let b = load env s x.t in
      let ha = load-IsSound env s x.f v in
      let out = take_out-exact a value ha x.positive x.covered in
      let both = pair-le-supply s.accounts (supply_of s.config) x.f x.t v.backed x.distinct in
      let inb =
        bring_in-IsSound b value (moved_credits a value) (load-IsSound env s x.t v)
          (moved_credits-le a value ha x.positive x.covered)
          (omega (arith, v.capped, load-balance env s x.f, load-balance env s x.t)) in
      moved-IsValid s s' x.f x.t (take_out a value) (bring_in b value (moved_credits a value)) value
        v (take_out-IsSound a value ha x.positive x.covered) inb.0 x.distinct
        (omega (arith, load-balance env s x.f)) (omega (arith, load-balance env s x.t))
        (unfold save in ap (λ (z : State). z.config) x.saved)
        (unfold save in ap (λ (z : State). z.accounts) x.saved)
