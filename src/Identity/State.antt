-- ===== src/Identity/State.antt =====
-- The storage and the events of the identity contract, and its constants.
use open_social_protocol.Prelude.{ℕ, ◌*◌, Bool, Option, List, [], ◌∷◌}
use open_social_protocol.Chain.{Bytes, Text, Sdk}

abbrev pub protocol_version : ℕ
protocol_version = 1

abbrev pub encryption_key_length : ℕ
encryption_key_length = 32

abbrev pub hash_length : ℕ
hash_length = 32

abbrev pub max_profile_uri_chars : ℕ
max_profile_uri_chars = 512

abbrev pub max_label_chars : ℕ
max_label_chars = 64

abbrev pub max_capabilities : ℕ
max_capabilities = 255

abbrev pub day_ms : ℕ
day_ms = 86400000

abbrev pub max_device_lifetime_ms : ℕ
max_device_lifetime_ms = 366 * day_ms

abbrev pub max_recovery_delay_ms : ℕ
max_recovery_delay_ms = 365 * day_ms

abbrev pub max_guardians : ℕ
max_guardians = 16

-- identity.identity_record; what the contract stores has no null account, owner or key
pub record IdentityRecord : Type 0 where
  pub account : Bytes
  pub owner : Bytes
  pub encryption_key : Bytes
  pub key_version : ℕ
  pub profile_hash : Option Bytes
  pub profile_uri : Option Text
  pub version : ℕ
  pub device_epoch : ℕ
  pub registered_at : ℕ
  pub updated_at : ℕ

-- identity.device_record
pub record DeviceRecord : Type 0 where
  pub account : Bytes
  pub device : Bytes
  pub capabilities : ℕ
  pub expires_at : ℕ
  pub device_epoch : ℕ
  pub revoked : Bool
  pub label : Option Text
  pub authorized_at : ℕ

-- identity.recovery_policy
pub record RecoveryPolicy : Type 0 where
  pub guardians : List Bytes
  pub threshold : ℕ
  pub delay_ms : ℕ

-- identity.pending_policy
pub record PendingPolicy : Type 0 where
  pub policy : RecoveryPolicy
  pub effective_at : ℕ

-- identity.pending_recovery
pub record PendingRecovery : Type 0 where
  pub new_owner : Bytes
  pub approvals : List Bytes
  pub effective_at : ℕ
  pub proposed_at : ℕ

-- identity.recovery_state
pub record RecoveryState : Type 0 where
  pub policy : Option RecoveryPolicy
  pub pending_policy : Option PendingPolicy
  pub pending_recovery : Option PendingRecovery

-- The osp.identity.* events.
pub data Event : Type 0 where
  registered : Bytes → Bytes → ℕ → Option Bytes → Option Text → ℕ → ℕ → Event
  profile_updated : Bytes → Option Bytes → Option Text → ℕ → Event
  key_rotated : Bytes → ℕ → Bytes → ℕ → ℕ → Event
  device_authorized : Bytes → Bytes → ℕ → ℕ → Option Text → ℕ → ℕ → Event
  device_revoked : Bytes → Bytes → ℕ → Event
  recovery_policy_proposed : Bytes → RecoveryPolicy → ℕ → Event
  recovery_policy_set : Bytes → RecoveryPolicy → ℕ → Event
  recovery_policy_cancelled : Bytes → ℕ → Event
  recovery_proposed : Bytes → Bytes → Bytes → ℕ → ℕ → ℕ → ℕ → Event
  recovery_cancelled : Bytes → ℕ → Event
  recovered : Bytes → Bytes → Bytes → ℕ → ℕ → Event

-- The maps of `class Identity`, and what was emitted, newest first, each event with its impacted
-- addresses.
pub record State ⦃sdk : Sdk⦄ : Type 0 where
  pub identities : sdk.Map IdentityRecord
  pub devices : sdk.Map DeviceRecord
  pub recovery : sdk.Map RecoveryState
  pub events : List (Event × List Bytes)

module _ ⦃sdk : Sdk⦄ where
  -- The storage of a contract that was just deployed.
  abbrev pub fresh : State
  fresh = record { identities = sdk.empty; devices = sdk.empty; recovery = sdk.empty; events = [] }

  -- System.event
  abbrev pub emit : Event → List Bytes → State → State
  emit e impacted s = record s { events = (e, impacted) ∷ s.events }
