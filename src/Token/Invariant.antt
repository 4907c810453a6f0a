-- ===== src/Token/Invariant.antt =====
-- The invariant of the token contract's storage, and what loading and saving an account keep of it.
use open_social_protocol.Prelude.{
  ℕ, ◌≤◌, ◌≡◌, Option, none, some, arith, Option-cases, inl, inr, Bool-cases,
}
use open_social_protocol.Chain.{Bytes, Sdk, Env}
use open_social_protocol.Token.State.{max_supply, AccountState, Config, State, fresh}
use open_social_protocol.Token.Credits.{load, save, regenerate}
use open_social_protocol.Token.Bounds.{IsSound, regenerate-IsSound, new_account-IsSound}
use open_social_protocol.Token.Balances.{balance_at, IsBacked, put-IsBacked, empty-IsBacked}

abbrev pub supply_of : Option Config → ℕ
supply_of none = 0
supply_of (some c) = c.supply

module _ ⦃sdk : Sdk⦄ where
  open sdk use {get, put, equal, get-put, get-empty}

  pub record IsValid (s : State) : Type 0 where
    -- the supply is within the pilot's maximum
    pub capped : supply_of s.config ≤ max_supply
    -- every stored account is within its bounds
    pub sound : (k : Bytes) (a : AccountState) → get s.accounts k ≡ some a → IsSound a
    -- no listing of distinct accounts adds up to more than the supply
    pub backed : IsBacked s.accounts (supply_of s.config)

  pub fresh-IsValid : IsValid fresh
  fresh-IsValid = record {
    capped = omega arith;
    sound = λ k a e. ground (arith, get-empty {V = AccountState} k);
    backed = empty-IsBacked;
  }

  pub load-balance :
      (env : Env) (s : State) (k : Bytes) → (load env s k).balance ≡ balance_at s.accounts k
  unfolding load regenerate
  load-balance env s k = ground arith

  pub load-IsSound : (env : Env) (s : State) (k : Bytes) → IsValid s → IsSound (load env s k)
  unfolding load
  load-IsSound env s k v = elim (Option-cases (get s.accounts k)) [
    | inl new ↦ rw new (new_account-IsSound env.now)
    | inr (a, e) ↦ rw e (regenerate-IsSound env.now a (v.sound k a e))
  ]

  -- What a write to one account needs for the other accounts' soundness.
  pub put-IsSound :
      (s : State) (k : Bytes) (a : AccountState)
      → IsValid s
      → IsSound a
      → (j : Bytes) (b : AccountState) → get (put s.accounts k a) j ≡ some b
      → IsSound b
  put-IsSound s k a v h j b e = elim (Bool-cases (equal k j)) [
    | inl there ↦ ground (arith, get-put s.accounts k a j)
    | inr other ↦ v.sound j b (ground (arith, get-put s.accounts k a j))
  ]

  pub save-IsValid :
      (env : Env) (k : Bytes) (a : AccountState) (s : State)
      → IsValid s
      → IsSound a
      → a.balance ≤ balance_at s.accounts k
      → IsValid (save env k a s)
  unfolding save
  save-IsValid env k a s v h le = record {
    capped = v.capped;
    sound = put-IsSound s k a v h;
    backed = put-IsBacked s.accounts (supply_of s.config) k a v.backed le;
  }
