-- ===== src/Examples/IdentityRuns.antt =====
-- The identity contract on concrete inputs: an account, a device, a guardian and a recovery.
use open_social_protocol.Prelude.{
  ◌≡◌, refl, some, none, true, false, [], ◌∷◌, arith, replicate, Option,
}
use open_social_protocol.Chain.{Bytes, ok}
use open_social_protocol.Chain.Util.{require_string, require_address, is_empty}
use open_social_protocol.Identity.State.{IdentityRecord, RecoveryPolicy, State, fresh}
use open_social_protocol.Identity.Resolve.{
  resolve_for, resolve_device, contains, load_recovery, require_owner, load_identity,
  optional_string, optional_hash, require_encryption_key, resolve,
}
use open_social_protocol.Identity.Keys.{register}
use open_social_protocol.Identity.Devices.{authorize_device}
use open_social_protocol.Identity.Policy.{
  install_policy, require_distinct, validate_guardians, validate_policy, set_recovery_policy,
}
use open_social_protocol.Identity.Recovery.{
  fix_effective_at, approve, propose_recovery, execute_recovery,
}
use open_social_protocol.Identity.Effects.{Step, Reach, here, next}
use open_social_protocol.Identity.Owners.{execute_recovery_revokes_devices}
use open_social_protocol.Identity.Quorum.{
  Quorum, Governed, execute_recovery_needs-Quorum, owner_changes_by-Quorum,
}
use open_social_protocol.Examples.Mock.{mock, address, chain_at, after}

abbrev account : Option Bytes
account = some (address 1)

abbrev device : Option Bytes
device = some (address 2)

-- One guardian, and a day to wait.
abbrev policy : RecoveryPolicy
policy = record { guardians = address 3 ∷ []; threshold = 1; delay_ms = 86400000 }

abbrev registered : State
registered = after fresh (register (chain_at 1) account (some (replicate 32 5)) 1 none none fresh)

registered-ok :
    register (chain_at 1) account (some (replicate 32 5)) 1 none none fresh ≡ ok registered
unfolding register require_address require_encryption_key optional_hash optional_string
    require_string
registered-ok = refl

abbrev with_device : State
with_device = after registered (authorize_device (chain_at 2) account device 3 1000 none registered)

with_device-ok :
    authorize_device (chain_at 2) account device 3 1000 none registered ≡ ok with_device
unfolding register authorize_device require_address load_identity require_encryption_key
    optional_hash optional_string require_string require_owner
with_device-ok = refl

abbrev guarded : State
guarded = after with_device (set_recovery_policy (chain_at 3) account (some policy) with_device)

guarded-ok : set_recovery_policy (chain_at 3) account (some policy) with_device ≡ ok guarded
unfolding register authorize_device set_recovery_policy require_address load_identity
    require_encryption_key optional_hash optional_string require_string require_owner
    validate_policy validate_guardians require_distinct
guarded-ok = refl

abbrev proposed : State
proposed =
    after guarded
      (propose_recovery (chain_at 4) account (some (address 3)) (some (address 4)) guarded)

proposed-ok :
    propose_recovery (chain_at 4) account (some (address 3)) (some (address 4)) guarded
    ≡ ok proposed
unfolding register authorize_device set_recovery_policy propose_recovery require_address
    load_identity require_encryption_key optional_hash optional_string require_string require_owner
    validate_policy validate_guardians require_distinct install_policy load_recovery contains
    approve
proposed-ok = refl

abbrev recovered : State
recovered = after proposed (execute_recovery (chain_at 86400004) account proposed)

recovered-ok : execute_recovery (chain_at 86400004) account proposed ≡ ok recovered
unfolding register authorize_device set_recovery_policy propose_recovery execute_recovery
    require_address load_identity require_encryption_key optional_hash optional_string
    require_string require_owner validate_policy validate_guardians require_distinct install_policy
    load_recovery contains approve fix_effective_at
recovered-ok = refl

history : Reach 4 proposed
history =
    next (chain_at 4)
      (next (chain_at 3)
        (next (chain_at 2)
          (next (chain_at 1) here
            (Step.registers account (some (replicate 32 5)) 1 none none registered-ok))
          (Step.authorizes account device 3 1000 none with_device-ok))
        (Step.sets_policy account (some policy) guarded-ok))
      (Step.proposes account (some (address 3)) (some (address 4)) proposed-ok)

execute_recovery_needs-Quorum_example : Quorum history (chain_at 86400004) (address 1) recovered
execute_recovery_needs-Quorum_example =
    execute_recovery_needs-Quorum 4 proposed recovered (chain_at 86400004) account history
      recovered-ok

execute_recovery_revokes_devices_example : (resolve 500 recovered account device 1).ok ≡ false
unfolding is_empty
execute_recovery_revokes_devices_example =
    execute_recovery_revokes_devices 4 proposed recovered (chain_at 86400004) account device 500 1
      history (omega arith) recovered-ok refl

abbrev owner_record : IdentityRecord
owner_record = record {
  account = address 1;
  owner = address 1;
  encryption_key = replicate 32 5;
  key_version = 1;
  profile_hash = none;
  profile_uri = none;
  version = 1;
  device_epoch = 0;
  registered_at = 1;
  updated_at = 1;
}

owner_record-stored : mock.get proposed.identities (address 1) ≡ some owner_record
unfolding register authorize_device set_recovery_policy propose_recovery require_address
    load_identity require_encryption_key optional_hash optional_string require_string require_owner
    validate_policy validate_guardians require_distinct install_policy load_recovery contains
    approve
owner_record-stored = refl

owner_changes_by-Quorum_example :
    Governed history (chain_at 86400004) (address 1) recovered owner_record
owner_changes_by-Quorum_example =
    owner_changes_by-Quorum 4 proposed recovered (chain_at 86400004) (address 1) owner_record
      history owner_record-stored (Step.executes account recovered-ok)

device_accepted : (resolve 500 proposed account device 1).ok ≡ true
unfolding register authorize_device set_recovery_policy propose_recovery resolve is_empty
    require_address load_identity require_encryption_key optional_hash optional_string
    require_string require_owner validate_policy validate_guardians require_distinct install_policy
    load_recovery contains approve fix_effective_at resolve_for resolve_device
device_accepted = refl
