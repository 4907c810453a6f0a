-- ===== src/Identity/Resolve.antt =====
-- The internal helpers, actor resolution and the read methods.
use open_social_protocol.Prelude.{
  ℕ, String, str_append, Bool, true, false, Option, none, some, List, [], ◌∷◌, ◌||◌, ◌&&◌, not,
  ◌==◌, leb, length, bit_and, if◌then◌else◌,
}
use open_social_protocol.Chain.{
  Bytes, Text, Sdk, Env, ResolveActorResult, Result, ok, ◌>>=◌, ◌>>◌, require, require_some,
}
use open_social_protocol.Chain.Util.{is_empty, value, concat, require_string}
use open_social_protocol.Identity.State.{
  encryption_key_length, hash_length, IdentityRecord, DeviceRecord, RecoveryState, State,
}

abbrev pub no_recovery : RecoveryState
no_recovery = record { policy = none; pending_policy = none; pending_recovery = none }

abbrev pub or_no_recovery : Option RecoveryState → RecoveryState
or_no_recovery none = no_recovery
or_no_recovery (some r) = r

-- Identity.optionalHash
unfoldable pub optional_hash : Option Bytes → String → Result (Option Bytes)
optional_hash v what = if is_empty v then ok none else do
  require (length (value v) == hash_length) (str_append what " must be empty or 32 bytes")
  ok v

abbrev pub empty_to_null : Text → Option Text
empty_to_null [] = none
empty_to_null (c ∷ s) = some (c ∷ s)

-- Identity.optionalString
unfoldable pub optional_string : Option Text → ℕ → String → Result (Option Text)
optional_string v max what = do s ← require_string v max what; ok (empty_to_null s)

-- Identity.requireEncryptionKey
unfoldable pub require_encryption_key : Option Bytes → Result Bytes
require_encryption_key v = do
  require (not (is_empty v)) "encryption_key is required"
  require (length (value v) == encryption_key_length) "encryption_key must be 32 bytes"
  ok (value v)

abbrev refuse : String → ResolveActorResult
refuse reason = record { ok = false; signer = none; reason = some reason }

abbrev pub accept : Bytes → ResolveActorResult
accept signer = record { ok = true; signer = some signer; reason = none }

-- The checks on a stored device.
unfoldable pub resolve_device :
    ℕ → IdentityRecord → Bytes → ℕ → Option DeviceRecord → ResolveActorResult
resolve_device now rec device capability none = refuse "unknown device"
resolve_device now rec device capability (some dev) =
    if dev.revoked
    then refuse "device revoked"
    else if not (dev.device_epoch == rec.device_epoch)
    then refuse "device epoch expired"
    else if leb dev.expires_at now
    then refuse "device expired"
    else if not (capability == 0) && bit_and dev.capabilities capability == 0
    then refuse "capability not granted"
    else accept device

module _ ⦃sdk : Sdk⦄ where
  open sdk use {get, put, equal}

  -- Identity.deviceKey
  abbrev pub device_key : Bytes → Bytes → Bytes
  device_key account device = concat (account ∷ device ∷ [])

  -- Identity.loadIdentity
  unfoldable pub load_identity : State → Bytes → Result IdentityRecord
  load_identity s account = require_some (get s.identities account) "identity not registered"

  -- Identity.requireOwner
  unfoldable pub require_owner : Env → IdentityRecord → Result Bytes
  require_owner env rec = do require (env.authorized rec.owner) "authorization failed"; ok rec.owner

  -- Identity.contains
  unfoldable pub contains : List Bytes → Bytes → Bool
  contains [] addr = false
  contains (x ∷ list) addr = equal x addr || contains list addr

  -- Identity.loadRecovery
  unfoldable pub load_recovery : State → Bytes → RecoveryState
  load_recovery s account = or_no_recovery (get s.recovery account)

  -- `resolve` for a registered account.
  unfoldable pub resolve_for :
      ℕ → State → Bytes → Option Bytes → ℕ → IdentityRecord → ResolveActorResult
  resolve_for now s account device capability rec =
      if is_empty device || equal (value device) account
      then accept rec.owner
      else resolve_device now rec (value device) capability
          (get s.devices (device_key account (value device)))

  abbrev resolve_account :
      ℕ → State → Bytes → Option Bytes → ℕ → Option IdentityRecord → ResolveActorResult
  resolve_account now s account device capability none = refuse "unregistered"
  resolve_account now s account device capability (some rec) =
      resolve_for now s account device capability rec

  -- Identity.resolve, and Identity.resolve_actor
  unfoldable pub resolve : ℕ → State → Option Bytes → Option Bytes → ℕ → ResolveActorResult
  resolve now s account device capability =
      if is_empty account
      then refuse "unregistered"
      else resolve_account now s (value account) device capability
          (get s.identities (value account))

  -- Identity.get_identity
  unfoldable pub get_identity : State → Option Bytes → Option IdentityRecord
  get_identity s account = if is_empty account then none else get s.identities (value account)

  -- Identity.get_device
  unfoldable pub get_device : State → Option Bytes → Option Bytes → Option DeviceRecord
  get_device s account device =
      if is_empty account || is_empty device
      then none
      else get s.devices (device_key (value account) (value device))

  -- Identity.get_recovery
  unfoldable pub get_recovery : State → Option Bytes → Option RecoveryState
  get_recovery s account = if is_empty account then none else get s.recovery (value account)
