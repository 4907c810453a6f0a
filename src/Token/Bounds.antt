-- ===== src/Token/Bounds.antt =====
-- The u64 arithmetic of Token.ts on one account: nothing wraps around, and the credits stay within
-- the capacity.
use Prim.Native.Nat.{min}
use native.Mathlib.Decide.{dec_le}
use native.Mathlib.Nat.{le_refl, div-le_of_le-mul, lt-div-mul-add}
use open_social_protocol.Prelude.{ℕ, ◌+◌, ◌-◌, ◌*◌, ◌/◌, ◌≤◌, ◌<◌, ◌≡◌, arith}
use open_social_protocol.Token.State.{day_ms, free_max, per_token, max_supply, AccountState}
use open_social_protocol.Token.Credits.{elapsed, regenerate, new_account, pay}
use open_social_protocol.Token.Methods.{moved_credits, take_out, bring_in}
use open_social_protocol.Token.Support.{credit}

-- An account whose numbers are within the pilot's bounds.
pub record IsSound (a : AccountState) : Type 0 where
  pub supply_bound : a.balance ≤ max_supply
  pub free_bound : a.free_credits ≤ free_max
  pub credit_bound : a.token_credits ≤ a.balance * per_token

elapsed-le-day : (now t : ℕ) → elapsed now t ≤ day_ms
elapsed-le-day now t = ground arith

mul-le-mul : (a b c d : ℕ) → a ≤ c → b ≤ d → a * b ≤ c * d
mul-le-mul a b c d h k = grind arith

-- `load` with the arithmetic of the integers.
abbrev pub regenerate_exact : ℕ → AccountState → AccountState
regenerate_exact now a =
    let dt = elapsed now a.updated_at in
    let cap = a.balance * per_token in
    record a {
      free_credits = min free_max (a.free_credits + free_max * dt / day_ms);
      token_credits = min cap (a.token_credits + cap * dt / day_ms);
      updated_at = now;
    }

div-le : (t v b k : ℕ) → 0 < b → t ≤ b * k → t * v / b ≤ v * k
div-le t v b k p h =
    div-le_of_le-mul b {m = t * v} {n = v * k}
      (omega (arith, mul-le-mul t v (b * k) v h (le_refl v)))

div-remains : (t v d k : ℕ) → 0 < v + d → t ≤ (v + d) * k → t ≤ t * v / (v + d) + d * k
div-remains t v d k p h = elim (dec_le t (t * v / (v + d) + d * k)) [
  | yes fits ↦ fits
  | no over ↦ absurd (
      omega (
        arith,
        lt-div-mul-add {a = t * v} p,
        mul-le-mul t d ((v + d) * k) d h (le_refl d),
        mul-le-mul (t * v / (v + d) + d * k + 1) (v + d) t (v + d) (omega arith) (le_refl (v + d)),
      ))
]

-- On an account within the bounds, `load` computes what the same formulas give over the integers:
-- no product, sum or quotient of it wraps around.
pub regenerate-exact :
    (now : ℕ) (a : AccountState) → IsSound a → regenerate now a ≡ regenerate_exact now a
unfolding regenerate
regenerate-exact now a h =
    let dt : ℕ = elapsed now a.updated_at in
    ground (
      arith,
      elapsed-le-day now a.updated_at,
      mul-le-mul free_max dt free_max day_ms (le_refl free_max) (elapsed-le-day now a.updated_at),
      mul-le-mul (a.balance * per_token) dt (max_supply * per_token) day_ms (omega arith)
          (elapsed-le-day now a.updated_at),
    )

pub regenerate-IsSound : (now : ℕ) (a : AccountState) → IsSound a → IsSound (regenerate now a)
regenerate-IsSound now a h =
    rw (regenerate-exact now a h) (record {
      supply_bound = h.supply_bound;
      free_bound = omega arith;
      credit_bound = omega arith;
    })

pub new_account-IsSound : (now : ℕ) → IsSound (new_account now)
new_account-IsSound now = omega arith

-- A covered cost is taken from the free credits first, and no credit wraps around.
pub record IsPaid (a : AccountState) (cost : ℕ) (b : AccountState) : Type 0 where
  pub same_balance : b.balance ≡ a.balance
  pub total : b.free_credits + b.token_credits + cost ≡ a.free_credits + a.token_credits
  pub free_first : b.free_credits ≡ a.free_credits - cost

pub pay-IsPaid :
    (a : AccountState) (cost : ℕ)
    → IsSound a
    → cost ≤ a.free_credits + a.token_credits
    → IsPaid a cost (pay a cost)
pay-IsPaid a cost h fits = omega arith

pub pay-IsSound :
    (a : AccountState) (cost : ℕ)
    → IsSound a
    → cost ≤ a.free_credits + a.token_credits
    → IsSound (pay a cost)
pay-IsSound a cost h fits = omega arith

module _ (a : AccountState) (value : ℕ) (h : IsSound a) (p : 0 < value)
    (fits : value ≤ a.balance) where
  pub moved_credits-exact : moved_credits a value ≡ a.token_credits * value / a.balance
  unfolding moved_credits
  moved_credits-exact = ground (
    arith,
    mul-le-mul a.token_credits value (max_supply * per_token) max_supply (omega arith)
        (omega arith),
  )

  -- The credits that move are backed by the tokens that move.
  pub moved_credits-le : moved_credits a value ≤ value * per_token
  moved_credits-le =
      rw moved_credits-exact
        (div-le a.token_credits value a.balance per_token (omega arith) h.credit_bound)

  pub moved_credits-remains :
      a.token_credits ≤ moved_credits a value + (a.balance - value) * per_token
  moved_credits-remains =
      let e : value + (a.balance - value) ≡ a.balance = omega arith in
      rw moved_credits-exact (
        rw e at (
          div-remains a.token_credits value (a.balance - value) per_token (omega arith)
            (rw e h.credit_bound)))

  pub moved_credits-le-credits : moved_credits a value ≤ a.token_credits
  moved_credits-le-credits = rw moved_credits-exact (
      div-le_of_le-mul a.balance {m = a.token_credits * value} {n = a.token_credits} (
        omega (
          arith,
          mul-le-mul a.token_credits value a.token_credits a.balance (le_refl a.token_credits) fits,
        )))

  pub take_out-exact :
      ((take_out a value).balance + value ≡ a.balance)
      × ((take_out a value).token_credits + moved_credits a value ≡ a.token_credits)
      × ((take_out a value).free_credits ≡ a.free_credits)
  unfolding take_out
  take_out-exact = omega (arith, moved_credits-le-credits)

  pub take_out-IsSound : IsSound (take_out a value)
  take_out-IsSound = omega (arith, take_out-exact, moved_credits-remains)

-- The recipient's numbers do not wrap around, and its credits stay backed.
pub bring_in-IsSound :
    (b : AccountState) (value credits : ℕ)
    → IsSound b
    → credits ≤ value * per_token
    → b.balance + value ≤ max_supply
    → IsSound (bring_in b value credits)
      × ((bring_in b value credits).balance ≡ b.balance + value)
      × ((bring_in b value credits).token_credits ≡ b.token_credits + credits)
unfolding bring_in
bring_in-IsSound b value credits h k fits = (omega arith, omega arith, omega arith)

pub credit-IsSound :
    (a : AccountState) (reward : ℕ)
    → IsSound a
    → a.balance + reward ≤ max_supply
    → IsSound (credit reward a) × ((credit reward a).balance ≡ a.balance + reward)
credit-IsSound a reward h fits = (omega arith, omega arith)
