-- ===== src/Registry/Entries.antt =====
-- The calls of the registry contract as a step relation, and what a call does to the entries.
use open_social_protocol.Prelude.{
  ℕ, ◌≤◌, ◌<◌, ◌≡◌, inl, inr, refl, Option, none, some, arith, Option-cases,
}
use open_social_protocol.Chain.{Bytes, Text, Sdk, Env, ok, add64}
use open_social_protocol.Chain.Util.{require_address}
use open_social_protocol.Registry.State.{
  Status, proposed, active, deprecated, ContractEntry, RegistryConfig, State,
}
use open_social_protocol.Registry.Checks.{
  require_name, load_config, require_admin, optional_abi_hash, optional_notes, name_key, init,
}
use open_social_protocol.Registry.Contracts.{
  enter, propose_contract, apply_contract, cancel_contract, deprecate_contract,
}
use open_social_protocol.Registry.Admin.{propose_admin, cancel_admin, execute_admin}

module _ ⦃sdk : Sdk⦄ where
  open sdk use {get, put, remove, equal, get-put, get-remove, get-empty, equal_iff}

  -- One successful call of a method that writes.
  pub data Step (env : Env) (s t : State) : Type 0 where
    inits :
        (admin : Option Bytes) (delay version : ℕ)
        → init env admin delay version s ≡ ok t
        → Step env s t
    proposes :
        (name : Option Text) (address : Option Bytes) (version : ℕ) (hash : Option Bytes)
        (notes : Option Text)
        → propose_contract env name address version hash notes s ≡ ok t
        → Step env s t
    applies : (name : Option Text) → apply_contract env name s ≡ ok t → Step env s t
    cancels : (name : Option Text) → cancel_contract env name s ≡ ok t → Step env s t
    deprecates :
        (name notes : Option Text) → deprecate_contract env name notes s ≡ ok t → Step env s t
    proposes_admin : (admin : Option Bytes) → propose_admin env admin s ≡ ok t → Step env s t
    cancels_admin : cancel_admin env s ≡ ok t → Step env s t
    executes_admin : execute_admin env s ≡ ok t → Step env s t

  -- What a call does to the entries.
  pub data OnEntries (env : Env) (s t : State) : Type 0 where
    same :
        t.active_entries ≡ s.active_entries
        → t.proposed_entries ≡ s.proposed_entries
        → OnEntries env s t
    first :
        (k : Bytes) (e : ContractEntry)
        → get s.active_entries k ≡ none
        → t.active_entries ≡ put s.active_entries k e
        → t.proposed_entries ≡ s.proposed_entries
        → OnEntries env s t
    queued :
        (k : Bytes) (a p : ContractEntry)
        → get s.active_entries k ≡ some a
        → a.version < p.version
        → t.active_entries ≡ s.active_entries
        → t.proposed_entries ≡ put s.proposed_entries k p
        → OnEntries env s t
    applied :
        (k : Bytes) (p e : ContractEntry)
        → get s.proposed_entries k ≡ some p
        → e.version ≡ p.version
        → p.effective_at ≤ env.now
        → t.active_entries ≡ put s.active_entries k e
        → t.proposed_entries ≡ remove s.proposed_entries k
        → OnEntries env s t
    dropped :
        (k : Bytes)
        → t.active_entries ≡ s.active_entries
        → t.proposed_entries ≡ remove s.proposed_entries k
        → OnEntries env s t
    marked :
        (k : Bytes) (a e : ContractEntry)
        → get s.active_entries k ≡ some a
        → e.version ≡ a.version
        → t.active_entries ≡ put s.active_entries k e
        → t.proposed_entries ≡ s.proposed_entries
        → OnEntries env s t

  -- The parts of a successful `apply_contract`, `cancel_contract` and `deprecate_contract`.
  pub record Applied (env : Env) (name : Option Text) (s t : State) : Type 0 where
    pub n : Text
    pub p : ContractEntry
    pub named : require_name name ≡ ok n
    pub found : get s.proposed_entries (name_key n) ≡ some p
    pub waited : p.effective_at ≤ env.now
    pub active_entries :
        t.active_entries
        ≡ put s.active_entries (name_key n) (record p { status = active; updated_at = env.now })
    pub proposed_entries : t.proposed_entries ≡ remove s.proposed_entries (name_key n)

  pub apply_contract-Applied :
      (env : Env) (name : Option Text) (s t : State)
      → apply_contract env name s ≡ ok t
      → Applied env name s t
  unfolding apply_contract load_config
  apply_contract-Applied env name s t h = ground arith

  cancel_contract-OnEntries :
      (env : Env) (name : Option Text) (s t : State)
      → cancel_contract env name s ≡ ok t
      → (n : Text) × (require_name name ≡ ok n)
        × (t.active_entries ≡ s.active_entries)
        × (t.proposed_entries ≡ remove s.proposed_entries (name_key n))
  unfolding cancel_contract load_config
  cancel_contract-OnEntries env name s t h = ground arith

  record Deprecated (env : Env) (name notes : Option Text) (s t : State) : Type 0 where
    n : Text
    a : ContractEntry
    text : Option Text
    named : require_name name ≡ ok n
    noted : optional_notes notes ≡ ok text
    found : get s.active_entries (name_key n) ≡ some a
    active_entries :
        t.active_entries
        ≡ put s.active_entries
            (name_key n)
            (record a { status = deprecated; notes = text; updated_at = env.now })
    proposed_entries : t.proposed_entries ≡ s.proposed_entries

  deprecate_contract-Deprecated :
      (env : Env) (name notes : Option Text) (s t : State)
      → deprecate_contract env name notes s ≡ ok t
      → Deprecated env name notes s t
  unfolding deprecate_contract load_config
  deprecate_contract-Deprecated env name notes s t h = ground arith

  record Entered (env : Env) (name : Option Text) (address : Option Bytes) (version : ℕ)
      (hash : Option Bytes) (notes : Option Text) (s t : State) : Type 0 where
    n : Text
    cfg : RegistryConfig
    a : Bytes
    h : Option Bytes
    text : Option Text
    admin : require_admin env s ≡ ok cfg
    named : require_name name ≡ ok n
    addressed : require_address address "address" ≡ ok a
    hashed : optional_abi_hash hash ≡ ok h
    noted : optional_notes notes ≡ ok text
    entered : enter env cfg n a version h text (get s.active_entries (name_key n)) s ≡ ok t

  propose_contract-Entered :
      (env : Env) (name : Option Text) (address : Option Bytes) (version : ℕ) (hash : Option Bytes)
      (notes : Option Text) (s t : State)
      → propose_contract env name address version hash notes s ≡ ok t
      → Entered env name address version hash notes s t
  unfolding propose_contract
  propose_contract-Entered env name address version hash notes s t h = ground arith

  abbrev entry_of : Text → Bytes → ℕ → Option Bytes → Status → ℕ → Option Text → ℕ → ContractEntry
  entry_of n a version hash status effective_at text now = record {
    name = n;
    address = a;
    version = version;
    abi_hash = hash;
    status = status;
    effective_at = effective_at;
    notes = text;
    updated_at = now;
  }

  enter_first :
      (env : Env) (cfg : RegistryConfig) (n : Text) (a : Bytes) (version : ℕ) (hash : Option Bytes)
      (text : Option Text) (s t : State)
      → enter env cfg n a version hash text none s ≡ ok t
      → (t.active_entries
          ≡ put s.active_entries
              (name_key n)
              (entry_of n a version hash active env.now text env.now))
        × (t.proposed_entries ≡ s.proposed_entries)
  unfolding enter
  enter_first env cfg n a version hash text s t h = ground arith

  enter_queued :
      (env : Env) (cfg : RegistryConfig) (n : Text) (a : Bytes) (version : ℕ) (hash : Option Bytes)
      (text : Option Text) (current : ContractEntry) (s t : State)
      → enter env cfg n a version hash text (some current) s ≡ ok t
      → (current.version < version)
        × (t.active_entries ≡ s.active_entries)
        × (t.proposed_entries
            ≡ put s.proposed_entries (name_key n) (
                entry_of n a version hash proposed
                  (add64 env.now cfg.upgrade_delay_ms)
                  text
                  env.now))
  unfolding enter
  enter_queued env cfg n a version hash text current s t h = ground arith

  -- The other methods leave the entries as they are.
  init-entries :
      (env : Env) (admin : Option Bytes) (delay version : ℕ) (s t : State)
      → init env admin delay version s ≡ ok t
      → (t.active_entries ≡ s.active_entries) × (t.proposed_entries ≡ s.proposed_entries)
  unfolding init
  init-entries env admin delay version s t h = ground arith

  propose_admin-entries :
      (env : Env) (admin : Option Bytes) (s t : State)
      → propose_admin env admin s ≡ ok t
      → (t.active_entries ≡ s.active_entries) × (t.proposed_entries ≡ s.proposed_entries)
  unfolding propose_admin
  propose_admin-entries env admin s t h = ground arith

  cancel_admin-entries :
      (env : Env) (s t : State)
      → cancel_admin env s ≡ ok t
      → (t.active_entries ≡ s.active_entries) × (t.proposed_entries ≡ s.proposed_entries)
  unfolding cancel_admin
  cancel_admin-entries env s t h = ground arith

  execute_admin-entries :
      (env : Env) (s t : State)
      → execute_admin env s ≡ ok t
      → (t.active_entries ≡ s.active_entries) × (t.proposed_entries ≡ s.proposed_entries)
  unfolding execute_admin
  execute_admin-entries env s t h = ground arith

  pub on_entries : (env : Env) (s t : State) → Step env s t → OnEntries env s t
  on_entries env s t (inits admin delay version e) =
      let x = init-entries env admin delay version s t e in OnEntries.same x.0 x.1
  on_entries env s t (proposes name address version hash notes e) =
      let x = propose_contract-Entered env name address version hash notes s t e in
      elim (Option-cases (get s.active_entries (name_key x.n))) [
        | inl new ↦
            let y = enter_first env x.cfg x.n x.a version x.h x.text s t (rw new at x.entered) in
            OnEntries.first (name_key x.n) _ new y.0 y.1
        | inr (current, there) ↦
            let y =
              enter_queued env x.cfg x.n x.a version x.h x.text current s t
                (rw there at x.entered) in
            OnEntries.queued (name_key x.n) current _ there y.0 y.1 y.2
      ]
  on_entries env s t (applies name e) =
      let x = apply_contract-Applied env name s t e in
      OnEntries.applied (name_key x.n) x.p _ x.found refl x.waited x.active_entries
        x.proposed_entries
  on_entries env s t (cancels name e) =
      let (n, _, a, p) = cancel_contract-OnEntries env name s t e in
      OnEntries.dropped (name_key n) a p
  on_entries env s t (deprecates name notes e) =
      let x = deprecate_contract-Deprecated env name notes s t e in
      OnEntries.marked (name_key x.n) x.a _ x.found refl x.active_entries x.proposed_entries
  on_entries env s t (proposes_admin admin e) =
      let x = propose_admin-entries env admin s t e in OnEntries.same x.0 x.1
  on_entries env s t (cancels_admin e) =
      let x = cancel_admin-entries env s t e in OnEntries.same x.0 x.1
  on_entries env s t (executes_admin e) =
      let x = execute_admin-entries env s t e in OnEntries.same x.0 x.1
