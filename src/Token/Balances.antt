-- ===== src/Token/Balances.antt =====
-- The sum of the balances of any accounts, each named once, under a write to the account map.
use open_social_protocol.Prelude.{
  ℕ, ◌+◌, ◌≤◌, ◌≡◌, refl, Bool, true, false, Option, none, some, List, [], ◌∷◌, ◌||◌, arith, All,
  if◌then◌else◌,
}
use open_social_protocol.Chain.{Bytes, Sdk}
use open_social_protocol.Token.State.{AccountState}

abbrev pub balance_or_zero : Option AccountState → ℕ
balance_or_zero none = 0
balance_or_zero (some a) = a.balance

module _ ⦃sdk : Sdk⦄ where
  open sdk use {Map, get, put, equal, get-put, equal_iff}

  abbrev pub balance_at : Map AccountState → Bytes → ℕ
  balance_at m k = balance_or_zero (get m k)

  pub sum_balances : Map AccountState → List Bytes → ℕ
  sum_balances m [] = 0
  sum_balances m (k ∷ ks) = balance_at m k + sum_balances m ks

  -- No address is listed twice.
  abbrev pub Distinct : List Bytes → Type 0
  Distinct [] = Unit
  Distinct (k ∷ ks) = All (λ j. equal k j ≡ false) ks × Distinct ks

  pub member : Bytes → List Bytes → Bool
  member k [] = false
  member k (j ∷ ks) = equal k j || member k ks

  pub equal-sym : (a b : Bytes) → equal a b ≡ equal b a
  equal-sym a b = ground (arith, equal_iff a b, equal_iff b a)

  sum_balances-put_absent :
      (m : Map AccountState) (k : Bytes) (a : AccountState) (ks : List Bytes)
      → member k ks ≡ false
      → sum_balances (put m k a) ks ≡ sum_balances m ks
  unfolding sum_balances member
  sum_balances-put_absent m k a [] h = refl
  sum_balances-put_absent m k a (j ∷ ks) h =
      ground (arith, get-put m k a j, sum_balances-put_absent m k a ks)

  absent :
      (k j : Bytes) (ks : List Bytes)
      → equal k j ≡ true
      → All (λ i. equal k i ≡ false) ks
      → member j ks ≡ false
  unfolding member
  absent k j [] e h = refl
  absent k j (i ∷ ks) e h = ground (arith, absent k j ks e h.1, equal_iff k j)

  -- The write moves the sum by the change of the one balance, if the account is listed.
  pub sum_balances-put :
      (m : Map AccountState) (k : Bytes) (a : AccountState) (ks : List Bytes)
      → Distinct ks
      → sum_balances (put m k a) ks + (if member k ks then balance_at m k else 0)
        ≡ sum_balances m ks + (if member k ks then a.balance else 0)
  unfolding sum_balances member
  sum_balances-put m k a [] h = refl
  sum_balances-put m k a (j ∷ ks) h = ground (
    arith,
    get-put m k a j,
    equal_iff k j,
    absent j j ks,
    equal_iff j j,
    sum_balances-put_absent m k a ks,
    sum_balances-put m k a ks h.1,
  )

  -- Accounts that are sound, with balances that any listing of them keeps below the supply.
  pub record IsBacked (accounts : Map AccountState) (supply : ℕ) : Type 0 where
    pub sums : (ks : List Bytes) → Distinct ks → sum_balances accounts ks ≤ supply

  sum_balances-empty : (ks : List Bytes) → sum_balances sdk.empty ks ≡ 0
  unfolding sum_balances
  sum_balances-empty [] = refl
  sum_balances-empty (k ∷ ks) =
      ground (arith, sdk.get-empty {V = AccountState} k, sum_balances-empty ks)

  pub empty-IsBacked : IsBacked sdk.empty 0
  empty-IsBacked = record { sums = λ ks d. omega (arith, sum_balances-empty ks) }

  pub balance-le-supply :
      (m : Map AccountState) (supply : ℕ) (k : Bytes) → IsBacked m supply → balance_at m k ≤ supply
  unfolding sum_balances
  balance-le-supply m supply k h = omega (arith, h.sums (k ∷ []) (tt, tt))

  pub pair-le-supply :
      (m : Map AccountState) (supply : ℕ) (k j : Bytes)
      → IsBacked m supply
      → equal k j ≡ false
      → balance_at m k + balance_at m j ≤ supply
  unfolding sum_balances
  pair-le-supply m supply k j h e = omega (arith, h.sums (k ∷ j ∷ []) ((e, tt), (tt, tt)))

  not_listed : (k : Bytes) (ks : List Bytes) → member k ks ≡ false → All (λ j. equal k j ≡ false) ks
  unfolding member
  not_listed k [] h = tt
  not_listed k (j ∷ ks) h = ground (arith, not_listed k ks)

  -- A write that does not raise the balance keeps the backing.
  pub put-IsBacked :
      (m : Map AccountState) (supply : ℕ) (k : Bytes) (a : AccountState)
      → IsBacked m supply
      → a.balance ≤ balance_at m k
      → IsBacked (put m k a) supply
  put-IsBacked m supply k a h le = record {
    sums = λ ks d. ground (arith, sum_balances-put m k a ks d, h.sums ks d);
  }

  -- A write that raises it by `x` is backed by a supply that grows by `x`.
  pub put-IsBacked_grow :
      (m : Map AccountState) (supply x : ℕ) (k : Bytes) (a : AccountState)
      → IsBacked m supply
      → a.balance ≡ balance_at m k + x
      → IsBacked (put m k a) (supply + x)
  put-IsBacked_grow m supply x k a h e = record {
    sums = λ ks d. ground (arith, sum_balances-put m k a ks d, h.sums ks d);
  }

  -- A write that lowers it by `x` is backed by a supply that falls by `x`.
  pub put-IsBacked_shrink :
      (m : Map AccountState) (supply x : ℕ) (k : Bytes) (a : AccountState)
      → IsBacked m (supply + x)
      → a.balance + x ≡ balance_at m k
      → IsBacked (put m k a) supply
  unfolding sum_balances
  put-IsBacked_shrink m supply x k a h e = record {
    sums = λ ks d.
        ground (arith, sum_balances-put m k a ks d, h.sums ks d, not_listed k ks, h.sums (k ∷ ks));
  }
