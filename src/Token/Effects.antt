-- ===== src/Token/Effects.antt =====
-- What the methods on accounts do, and when they succeed.
use Prim.Native.Nat.{min}
use native.Mathlib.Decide.{dec_le}
use native.Mathlib.Nat.{div-mul-le_self, le-div_iff_mul-le}
use open_social_protocol.Prelude.{
  ℕ, ◌+◌, ◌*◌, ◌/◌, ◌≤◌, ◌<◌, ◌≡◌, ◌↔◌, ◌⊎◌, ◌∙◌, refl, sym, ap, true, false, Option, some, arith,
}
use open_social_protocol.Chain.{Bytes, Sdk, Env, ok, ok-injective}
use open_social_protocol.Chain.Util.{require_address}
use open_social_protocol.Token.State.{day_ms, free_max, per_token, AccountState, State}
use open_social_protocol.Token.Credits.{load, save, spend, pay, regenerate, elapsed}
use open_social_protocol.Token.Methods.{transfer, take_out, bring_in, moved_credits}
use open_social_protocol.Token.Bounds.{
  IsSound, IsPaid, regenerate-exact, regenerate-IsSound, pay-IsPaid, take_out-exact,
  moved_credits-le, bring_in-IsSound,
}
use open_social_protocol.Token.Balances.{pair-le-supply, equal-sym}
use open_social_protocol.Token.Invariant.{supply_of, IsValid, load-balance, load-IsSound}
use open_social_protocol.Token.Keeps.{spend-Spent, transfer-Transferred}

-- Two floors add up to at most the floor of the sum.
div-add-le : (x y k : ℕ) → 0 < k → x / k + y / k ≤ (x + y) / k
div-add-le x y k p =
    (le-div_iff_mul-le p).1 (omega (arith, div-mul-le_self x k, div-mul-le_self y k))

-- One credit pool of capacity `cap` over `d1` and then `d2` milliseconds, or over both at once.
pool_split :
    (cap credits d1 d2 d : ℕ)
    → d ≡ min (d1 + d2) day_ms
    → min cap (min cap (credits + cap * d1 / day_ms) + cap * d2 / day_ms)
      ≤ min cap (credits + cap * d / day_ms)
pool_split cap credits d1 d2 d e = elim (dec_le (d1 + d2) day_ms) [
  | yes within ↦
      let sum : d ≡ d1 + d2 = omega arith in
      rw sum (omega (arith, div-add-le (cap * d1) (cap * d2) day_ms (omega arith)))
  | no beyond ↦ let whole : d ≡ day_ms = omega arith in rw whole (omega arith)
]

-- An account within the bounds that has waited a whole day has all of its credits again.
pub regenerate_full :
    (now : ℕ) (a : AccountState)
    → IsSound a
    → a.updated_at + day_ms ≤ now
    → ((regenerate now a).free_credits ≡ free_max)
      × ((regenerate now a).token_credits ≡ a.balance * per_token)
regenerate_full now a h late =
    let whole : elapsed now a.updated_at ≡ day_ms = ground arith in
    rw (regenerate-exact now a h, whole) (omega arith, omega arith)

-- Loading and saving an account within the bounds in between never yields more credits than
-- waiting: for two times in order, neither before its last update, the two loads give at most what the second alone gives, in both pools.
pub regenerate_split :
    (t u : ℕ) (a : AccountState)
    → IsSound a
    → a.updated_at ≤ t
    → t ≤ u
    → ((regenerate u (regenerate t a)).free_credits ≤ (regenerate u a).free_credits)
      × ((regenerate u (regenerate t a)).token_credits ≤ (regenerate u a).token_credits)
regenerate_split t u a h p q =
    let d1 = elapsed t a.updated_at in
    let d2 = elapsed u t in
    let d = elapsed u a.updated_at in
    let e : d ≡ min (d1 + d2) day_ms = ground arith in
    rw
      (
        regenerate-exact u (regenerate t a) (regenerate-IsSound t a h),
        regenerate-exact t a h,
        regenerate-exact u a h,
      )
      (
        pool_split free_max a.free_credits d1 d2 d e,
        pool_split (a.balance * per_token) a.token_credits d1 d2 d e,
      )

-- From `a` and `b` to `a'` and `b'` exactly `value` tokens have moved, the credits that the tokens
-- back are the same in all, and the free credits stay where they are.
pub record Moved (value : ℕ) (a b a' b' : AccountState) : Type 0 where
  pub sender : a'.balance + value ≡ a.balance
  pub recipient : b'.balance ≡ b.balance + value
  pub credits : a'.token_credits + b'.token_credits ≡ a.token_credits + b.token_credits
  pub sender_free : a'.free_credits ≡ a.free_credits
  pub recipient_free : b'.free_credits ≡ b.free_credits

bring_in-free :
    (b : AccountState) (value credits : ℕ)
    → (bring_in b value credits).free_credits ≡ b.free_credits
unfolding bring_in
bring_in-free b value credits = refl

module _ ⦃sdk : Sdk⦄ where
  open sdk use {get, put, equal, get-put, equal_iff}

  -- In a valid state `spend` succeeds exactly for 1 to 100 units whose cost, 1000 for each, is
  -- covered by the two pools of credits as they are at the call's time.
  pub spend_exact :
      (env : Env) (k : Bytes) (units : ℕ) (s : State)
      → IsValid s
      → ((0 < units)
          × (units ≤ 100)
          × (units * 1000 ≤ (load env s k).free_credits + (load env s k).token_credits))
        ↔ ((t : State) × (spend env k units s ≡ ok t))
  unfolding spend
  spend_exact env k units s v =
      let h = load-IsSound env s k v in
      (
        λ c. (save env k (pay (load env s k) (units * 1000)) s, ground (arith, c.0, c.1, c.2)),
        λ r. let x = spend-Spent env k units s r.0 v r.1 in (x.positive, x.small, x.covered),
      )

  -- A write changes one entry.
  put_frame :
      (m : sdk.Map AccountState) (k : Bytes) (a : AccountState) (j : Bytes)
      → (equal k j ≡ true) ⊎ (get (put m k a) j ≡ get m j)
  put_frame m k a j = ground (arith, get-put m k a j)

  put_put_frame :
      (m : sdk.Map AccountState) (f t : Bytes) (a b : AccountState) (j : Bytes)
      → (equal f j ≡ true) ⊎ (equal t j ≡ true) ⊎ (get (put (put m f a) t b) j ≡ get m j)
  put_put_frame m f t a b j = ground (arith, get-put m f a j, get-put (put m f a) t b j)

  -- A successful `spend` in a valid state stores the account with exactly the cost taken, from the free credits
  -- first, and leaves every other account as it was.
  pub spend_effect :
      (env : Env) (k : Bytes) (units : ℕ) (s t : State)
      → IsValid s
      → spend env k units s ≡ ok t
      → ((a : AccountState) × (get t.accounts k ≡ some a) × IsPaid (load env s k) (units * 1000) a)
        × ((j : Bytes) → (equal k j ≡ true) ⊎ (get t.accounts j ≡ get s.accounts j))
  unfolding save
  spend_effect env k units s t v h =
      let x = spend-Spent env k units s t v h in
      let a = pay (load env s k) (units * 1000) in
      let e = ap (λ (z : State). z.accounts) x.saved in
      (
        (
          a,
          rw (e, get-put, (equal_iff k k).1 refl),
          pay-IsPaid (load env s k) (units * 1000) (load-IsSound env s k v) x.covered,
        ),
        λ j. rw e (put_frame s.accounts k a j),
      )

  transfer-Moved :
      (env : Env) (value : ℕ) (s : State) (f t : Bytes)
      → IsValid s
      → equal f t ≡ false
      → 0 < value
      → value ≤ (load env s f).balance
      → Moved value
          (load env s f)
          (load env s t)
          (take_out (load env s f) value)
          (bring_in (load env s t) value (moved_credits (load env s f) value))
  transfer-Moved env value s f t v ne p c =
      let a = load env s f in
      let ha = load-IsSound env s f v in
      let both = pair-le-supply s.accounts (supply_of s.config) f t v.backed ne in
      let out = take_out-exact a value ha p c in
      let inb =
        bring_in-IsSound (load env s t) value (moved_credits a value) (load-IsSound env s t v)
          (moved_credits-le a value ha p c)
          (omega (arith, v.capped, load-balance env s f, load-balance env s t)) in
      record {
        sender = out.0;
        recipient = inb.1;
        credits = omega arith;
        sender_free = out.2;
        recipient_free = bring_in-free (load env s t) value (moved_credits a value);
      }

  -- A successful transfer of `value` tokens in a valid state stores a sender with `value` fewer
  -- and a recipient with `value` more; together they hold the token credits that they had, each
  -- keeps its free credits, and the supply and every third account are as before.
  pub transfer_effect :
      (env : Env) (from to : Option Bytes) (value : ℕ) (s s' : State) (f t : Bytes)
      → IsValid s
      → require_address from "from" ≡ ok f
      → require_address to "to" ≡ ok t
      → transfer env from to value s ≡ ok s'
      → ((a b : AccountState) × (get s'.accounts f ≡ some a)
          × (get s'.accounts t ≡ some b)
          × Moved value (load env s f) (load env s t) a b)
        × (s'.config ≡ s.config)
        × ((j : Bytes)
            → (equal f j ≡ true) ⊎ (equal t j ≡ true) ⊎ (get s'.accounts j ≡ get s.accounts j))
  unfolding save
  transfer_effect env from to value s s' f t v pf pt h =
      let x = transfer-Transferred env from to value s s' h in
      let ef : x.f ≡ f = ok-injective (sym x.from_address ∙ pf) in
      let et : x.t ≡ t = ok-injective (sym x.to_address ∙ pt) in
      let a' = take_out (load env s x.f) value in
      let b' = bring_in (load env s x.t) value (moved_credits (load env s x.f) value) in
      let e : s'.accounts ≡ put (put s.accounts x.f a') x.t b' =
        ap (λ (z : State). z.accounts) x.saved in
      let back : equal x.t x.f ≡ false = equal-sym x.t x.f ∙ x.distinct in
      rw (← ef, ← et)
        (
          (
            a',
            b',
            rw (e, get-put, back, get-put, (equal_iff x.f x.f).1 refl),
            rw (e, get-put, (equal_iff x.t x.t).1 refl),
            transfer-Moved env value s x.f x.t v x.distinct x.positive x.covered,
          ),
          ap (λ (z : State). z.config) x.saved,
          λ j. rw e (put_put_frame s.accounts x.f x.t a' b' j),
        )
