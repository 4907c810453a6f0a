-- ===== src/Registry/Checks.antt =====
-- The internal helpers, `init` and the reads by name.
use open_social_protocol.Prelude.{
  ℕ, Bool, true, false, Option, none, some, List, [], ◌∷◌, ◌&&◌, ◌||◌, ◌==◌, leb, ltb, length,
  if◌then◌else◌,
}
use open_social_protocol.Chain.{
  Bytes, Text, Sdk, Env, Result, ok, ◌>>=◌, ◌>>◌, require, require_some,
}
use open_social_protocol.Chain.Util.{is_empty, value, require_address, require_string}
use open_social_protocol.Registry.State.{
  max_upgrade_delay_ms, max_name_chars, abi_hash_length, max_notes_chars, ContractEntry,
  RegistryConfig, contract_activated, State, emit,
}

abbrev pub is_none {ℓ} : {A : Type ℓ} → Option A → Bool
is_none none = true
is_none (some a) = false

abbrev pub text_or_empty : Option Text → Text
text_or_empty none = []
text_or_empty (some s) = s

-- a-z, 0-9, _ and -
unfoldable pub name_char : ℕ → Bool
name_char c = (leb 0x61 c && leb c 0x7a) || (leb 0x30 c && leb c 0x39) || c == 0x5f || c == 0x2d

-- The loop of `requireName`.
unfoldable pub require_name_chars : Text → Result (Unit {0})
require_name_chars [] = ok tt
require_name_chars (c ∷ name) =
    require (name_char c) "name must match [a-z0-9_-]" >> require_name_chars name

-- Registry.requireName
unfoldable pub require_name : Option Text → Result Text
require_name v = do
  let name = text_or_empty v
  require (ltb 0 (length name)) "name is required"
  require (leb (length name) max_name_chars) "name too long"
  require_name_chars name
  ok name

-- Registry.optionalAbiHash
unfoldable pub optional_abi_hash : Option Bytes → Result (Option Bytes)
optional_abi_hash v =
    if is_empty v
    then ok none
    else do require (length (value v) == abi_hash_length) "abi_hash must be empty or 32 bytes"; ok v

abbrev pub empty_to_null : Text → Option Text
empty_to_null [] = none
empty_to_null (c ∷ s) = some (c ∷ s)

-- Registry.optionalNotes
unfoldable pub optional_notes : Option Text → Result (Option Text)
optional_notes v = do s ← require_string v max_notes_chars "notes"; ok (empty_to_null s)

module _ ⦃sdk : Sdk⦄ where
  open sdk use {get, put, equal, string_to_bytes}

  -- Registry.loadConfig
  unfoldable pub load_config : State → Result RegistryConfig
  load_config s = require_some s.config "not initialized"

  -- Registry.requireAdmin
  unfoldable pub require_admin : Env → State → Result RegistryConfig
  require_admin env s = do
    cfg ← load_config s
    require (env.authorized cfg.admin) "authorization failed"
    ok cfg

  -- Registry.nameKey
  abbrev pub name_key : Text → Bytes
  name_key name = string_to_bytes name

  -- Registry.impacted
  unfoldable pub impacted : Bytes → Bytes → List Bytes
  impacted a b = if equal a b then a ∷ [] else a ∷ b ∷ []

  -- Registry.emitActivated
  abbrev pub emit_activated : ContractEntry → ℕ → List Bytes → State → State
  emit_activated entry now addresses s =
      emit (contract_activated entry.name entry.address entry.version now) addresses s

  -- Registry.init
  unfoldable pub init : Env → Option Bytes → ℕ → ℕ → State → Result State
  init env admin upgrade_delay_ms protocol_version s = do
    require (env.authorized env.contract_id) "authorization failed"
    require (is_none s.config) "already initialized"
    a ← require_address admin "admin"
    require (leb upgrade_delay_ms max_upgrade_delay_ms) "upgrade_delay_ms too large"
    require (leb 1 protocol_version) "protocol_version must be >= 1"
    ok (record s {
      config = some (record {
        admin = a;
        upgrade_delay_ms = upgrade_delay_ms;
        protocol_version = protocol_version;
        pending_admin = none;
        admin_transfer_effective_at = 0;
      });
    })

  -- Registry.get_contract
  unfoldable pub get_contract : Option Text → State → Option ContractEntry
  get_contract name s =
      if length (text_or_empty name) == 0
      then none
      else get s.active_entries (name_key (text_or_empty name))

  -- Registry.get_proposed_contract
  unfoldable pub get_proposed_contract : Option Text → State → Option ContractEntry
  get_proposed_contract name s =
      if length (text_or_empty name) == 0
      then none
      else get s.proposed_entries (name_key (text_or_empty name))
