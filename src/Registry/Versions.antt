-- ===== src/Registry/Versions.antt =====
-- The versions of a name, over any history of calls.
use open_social_protocol.Prelude.{ℕ, ◌≤◌, ◌<◌, ◌≡◌, refl, Option, none, some, arith}
use open_social_protocol.Chain.{Bytes, Text, Sdk, Env, ok}
use open_social_protocol.Registry.State.{ContractEntry, State, fresh}
use open_social_protocol.Registry.Checks.{require_name, name_key}
use open_social_protocol.Registry.Contracts.{apply_contract}
use open_social_protocol.Registry.Entries.{Step, OnEntries, on_entries, apply_contract-Applied}

-- The version of an entry, and 0 for none; stored versions are at least 1.
abbrev pub version_of : Option ContractEntry → ℕ
version_of none = 0
version_of (some e) = e.version

-- A proposed entry stands beside an active one of a smaller version.
abbrev pub Ordered : Option ContractEntry → Option ContractEntry → Type 0
Ordered current none = Unit
Ordered none (some p) = ⊥
Ordered (some a) (some p) = a.version < p.version

Ordered-less :
    (current : Option ContractEntry) (p : ContractEntry)
    → Ordered current (some p)
    → version_of current < p.version
Ordered-less none p o = absurd o
Ordered-less (some a) p o = o

module _ ⦃sdk : Sdk⦄ where
  open sdk use {get, put, remove, equal, get-put, get-remove, get-empty, equal_iff}

  -- Any number of calls, each with its own view of the chain.
  pub data Reach (s : State) : State → Type 0 where
    here : Reach s s
    next : {t u : State} (env : Env) → Reach s t → Step env t u → Reach s u

  -- What a call does to one name.
  record Grows (s t : State) (k : Bytes) : Type 0 where
    ordered : Ordered (get t.active_entries k) (get t.proposed_entries k)
    version : version_of (get s.active_entries k) ≤ version_of (get t.active_entries k)

  Step-Grows :
      (env : Env) (s t : State) (k : Bytes)
      → Ordered (get s.active_entries k) (get s.proposed_entries k)
      → Step env s t
      → Grows s t k
  Step-Grows env s t k o st = elim (on_entries env s t st) [
    | OnEntries.same e f ↦ record { ordered = rw (e, f) o; version = rw e (omega arith) }
    | OnEntries.first j e new a p ↦ ground (arith, get-put s.active_entries j e k, equal_iff j k)
    | OnEntries.queued j a p there less e f ↦
        ground (arith, get-put s.proposed_entries j p k, equal_iff j k)
    | OnEntries.applied j p e there v late a f ↦
        ground
          (arith, get-put s.active_entries j e k, get-remove s.proposed_entries j k, equal_iff j k)
    | OnEntries.dropped j e f ↦ ground (arith, get-remove s.proposed_entries j k, equal_iff j k)
    | OnEntries.marked j a e there v x f ↦
        ground (arith, get-put s.active_entries j e k, equal_iff j k)
  ]

  Reach-fresh-Ordered :
      {s : State}
      → Reach fresh s
      → (k : Bytes) → Ordered (get s.active_entries k) (get s.proposed_entries k)
  Reach-fresh-Ordered here k = rw (get-empty k) tt
  Reach-fresh-Ordered (next {t = s} {u = t} env r st) k =
      (Step-Grows env s t k (Reach-fresh-Ordered r k) st).ordered

  -- After any history of calls on a new contract, no further history lowers the active version of a
  -- name, or leaves a name that had an active entry of a positive version without one.
  pub Reach-version_grows :
      {s t : State} (k : Bytes)
      → Reach fresh s
      → Reach s t
      → version_of (get s.active_entries k) ≤ version_of (get t.active_entries k)
  Reach-version_grows {s} {t} k r q = (go q).1
    where
      go :
          {u : State}
          → Reach s u
          → Ordered (get u.active_entries k) (get u.proposed_entries k)
            × (version_of (get s.active_entries k) ≤ version_of (get u.active_entries k))
      go here = (Reach-fresh-Ordered r k, omega arith)
      go (next {t = u} {u = w} env q' st) =
          let (o, v) = go q' in
          let x = Step-Grows env u w k o st in (x.ordered, omega (arith, v, x.version))

  -- After any history of calls on a new contract, a call of `apply_contract` succeeds only for a name
  -- whose proposed entry has waited for its time of effect and has a version above the active one,
  -- and the version that is then active is the proposed one.
  pub apply_contract_upgrades :
      (env : Env) (name : Option Text) (s t : State)
      → Reach fresh s
      → apply_contract env name s ≡ ok t
      → (n : Text) × (p : ContractEntry) × (require_name name ≡ ok n)
        × (get s.proposed_entries (name_key n) ≡ some p)
        × (p.effective_at ≤ env.now)
        × (version_of (get s.active_entries (name_key n)) < p.version)
        × (version_of (get t.active_entries (name_key n)) ≡ p.version)
        × (get t.proposed_entries (name_key n) ≡ none)
  apply_contract_upgrades env name s t r e =
      let x = apply_contract-Applied env name s t e in
      let k = name_key x.n in
      let o : Ordered (get s.active_entries k) (some x.p) =
        rw x.found at (Reach-fresh-Ordered r k) in
      (
        x.n,
        x.p,
        x.named,
        x.found,
        x.waited,
        Ordered-less (get s.active_entries k) x.p o,
        rw (x.active_entries, get-put, (equal_iff k k).1 refl) refl,
        rw (x.proposed_entries, get-remove, (equal_iff k k).1 refl) refl,
      )
