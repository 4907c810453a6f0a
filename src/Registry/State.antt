-- ===== src/Registry/State.antt =====
-- The storage and the events of the registry contract, and its constants.
use open_social_protocol.Prelude.{ℕ, ◌*◌, Option, none, List, [], ◌∷◌}
use open_social_protocol.Chain.{Bytes, Text, Sdk}

abbrev pub day_ms : ℕ
day_ms = 86400000

abbrev pub max_upgrade_delay_ms : ℕ
max_upgrade_delay_ms = 30 * day_ms

abbrev pub max_name_chars : ℕ
max_name_chars = 32

abbrev pub abi_hash_length : ℕ
abi_hash_length = 32

abbrev pub max_notes_chars : ℕ
max_notes_chars = 256

-- registry.contract_status
pub data Status : Type 0 where
  proposed active deprecated : Status

-- registry.contract_entry; what the contract stores has no null name or address
pub record ContractEntry : Type 0 where
  pub name : Text
  pub address : Bytes
  pub version : ℕ
  pub abi_hash : Option Bytes
  pub status : Status
  pub effective_at : ℕ
  pub notes : Option Text
  pub updated_at : ℕ

-- registry.registry_config
pub record RegistryConfig : Type 0 where
  pub admin : Bytes
  pub upgrade_delay_ms : ℕ
  pub protocol_version : ℕ
  pub pending_admin : Option Bytes
  pub admin_transfer_effective_at : ℕ

-- The osp.registry.* events.
pub data Event : Type 0 where
  contract_proposed : Text → Bytes → ℕ → Option Bytes → ℕ → Event
  contract_activated : Text → Bytes → ℕ → ℕ → Event
  contract_cancelled : Text → ℕ → Event
  contract_deprecated : Text → Bytes → ℕ → ℕ → Event
  admin_proposed : Bytes → ℕ → Event
  admin_changed : Bytes → Bytes → ℕ → Event

-- The storage of `class Registry`: the configuration, the active and the proposed entries; and
-- what was emitted, newest first, each event with its impacted addresses.
pub record State ⦃sdk : Sdk⦄ : Type 0 where
  pub config : Option RegistryConfig
  pub active_entries : sdk.Map ContractEntry
  pub proposed_entries : sdk.Map ContractEntry
  pub events : List (Event × List Bytes)

module _ ⦃sdk : Sdk⦄ where
  -- The storage of a contract that was just deployed.
  abbrev pub fresh : State
  fresh = record {
    config = none;
    active_entries = sdk.empty;
    proposed_entries = sdk.empty;
    events = [];
  }

  -- System.event
  abbrev pub emit : Event → List Bytes → State → State
  emit e impacted s = record s { events = (e, impacted) ∷ s.events }
