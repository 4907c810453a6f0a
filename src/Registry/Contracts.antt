-- ===== src/Registry/Contracts.antt =====
-- `propose_contract`, `apply_contract`, `cancel_contract` and `deprecate_contract`.
use open_social_protocol.Prelude.{ℕ, Bool, true, false, Option, none, some, [], ◌∷◌, not, leb, ltb}
use open_social_protocol.Chain.{
  Bytes, Text, Sdk, Env, Result, ok, ◌>>=◌, ◌>>◌, require, require_some, add64,
}
use open_social_protocol.Chain.Util.{require_address}
use open_social_protocol.Registry.State.{
  Status, proposed, active, deprecated, ContractEntry, RegistryConfig, contract_proposed,
  contract_cancelled, contract_deprecated, State, emit,
}
use open_social_protocol.Registry.Checks.{
  require_name, optional_abi_hash, optional_notes, load_config, require_admin, name_key, impacted,
  emit_activated,
}

abbrev pub is_deprecated : Status → Bool
is_deprecated deprecated = true
is_deprecated _ = false

module _ ⦃sdk : Sdk⦄ where
  open sdk use {get, put, remove}

  -- The second half of `propose_contract`: with nothing active under the name the entry is active
  -- at once, and otherwise it is proposed behind the delay.
  unfoldable pub enter :
      Env
      → RegistryConfig
      → Text
      → Bytes
      → ℕ
      → Option Bytes
      → Option Text
      → Option ContractEntry
      → State
      → Result State
  enter env cfg name address version abi_hash notes none s =
      let entry : ContractEntry = record {
        name = name;
        address = address;
        version = version;
        abi_hash = abi_hash;
        status = active;
        effective_at = env.now;
        notes = notes;
        updated_at = env.now;
      } in
      ok (
        emit_activated entry env.now (impacted address cfg.admin)
          (record s { active_entries = put s.active_entries (name_key name) entry }))
  enter env cfg name address version abi_hash notes (some current) s = do
    require (ltb current.version version) "version must be greater than the active version"
    let effective_at = add64 env.now cfg.upgrade_delay_ms
    let entry : ContractEntry = record {
      name = name;
      address = address;
      version = version;
      abi_hash = abi_hash;
      status = proposed;
      effective_at = effective_at;
      notes = notes;
      updated_at = env.now;
    }
    ok (
        emit (contract_proposed name address version abi_hash effective_at)
          (impacted address cfg.admin)
          (record s { proposed_entries = put s.proposed_entries (name_key name) entry }))

  -- Registry.propose_contract
  unfoldable pub propose_contract :
      Env → Option Text → Option Bytes → ℕ → Option Bytes → Option Text → State → Result State
  propose_contract env name address version abi_hash notes s = do
    cfg ← require_admin env s
    n ← require_name name
    a ← require_address address "address"
    require (leb 1 version) "version must be >= 1"
    hash ← optional_abi_hash abi_hash
    text ← optional_notes notes
    enter env cfg n a version hash text (get s.active_entries (name_key n)) s

  -- Registry.apply_contract
  unfoldable pub apply_contract : Env → Option Text → State → Result State
  apply_contract env name s = do
    cfg ← load_config s
    n ← require_name name
    entry ← require_some (get s.proposed_entries (name_key n)) "no proposed entry for name"
    require (leb entry.effective_at env.now) "upgrade delay has not elapsed"
    let entry' = record entry { status = active; updated_at = env.now }
    ok (
        emit_activated entry' env.now (entry.address ∷ []) (record s {
          active_entries = put s.active_entries (name_key n) entry';
          proposed_entries = remove s.proposed_entries (name_key n);
        }))

  -- Registry.cancel_contract
  unfoldable pub cancel_contract : Env → Option Text → State → Result State
  cancel_contract env name s = do
    cfg ← require_admin env s
    n ← require_name name
    entry ← require_some (get s.proposed_entries (name_key n)) "no proposed entry for name"
    ok (
        emit (contract_cancelled n env.now) (impacted entry.address cfg.admin)
          (record s { proposed_entries = remove s.proposed_entries (name_key n) }))

  -- Registry.deprecate_contract
  unfoldable pub deprecate_contract : Env → Option Text → Option Text → State → Result State
  deprecate_contract env name notes s = do
    cfg ← require_admin env s
    n ← require_name name
    text ← optional_notes notes
    entry ← require_some (get s.active_entries (name_key n)) "no active entry for name"
    require (not (is_deprecated entry.status)) "contract already deprecated"
    let entry' = record entry { status = deprecated; notes = text; updated_at = env.now }
    ok (
        emit (contract_deprecated n entry.address entry.version env.now)
          (impacted entry.address cfg.admin)
          (record s { active_entries = put s.active_entries (name_key n) entry' }))
