-- ===== src/Identity/Effects.antt =====
-- The calls of the identity contract as a step relation, and what a call does to the identities and
-- to the devices, which the invariants are proved from.
use open_social_protocol.Prelude.{
  ℕ, suc, ◌≤◌, ◌≡◌, ◌≢◌, ◌⊎◌, inl, inr, refl, none, some, Option, length,
}
use open_social_protocol.Chain.{Bytes, Text, Sdk, Env, ok, add32}
use open_social_protocol.Chain.Util.Require.{require_address-ok}
use open_social_protocol.Identity.State.{
  IdentityRecord, DeviceRecord, RecoveryPolicy, PendingRecovery, State, fresh,
}
use open_social_protocol.Identity.Resolve.{device_key, load_recovery}
use open_social_protocol.Identity.Keys.{register, update_profile, rotate_encryption_key}
use open_social_protocol.Identity.Devices.{authorize_device, revoke_device}
use open_social_protocol.Identity.Policy.{
  set_recovery_policy, apply_recovery_policy, cancel_recovery_policy,
}
use open_social_protocol.Identity.Recovery.{propose_recovery, cancel_recovery, execute_recovery}
use open_social_protocol.Identity.Calls.{
  register-Registered, update_profile-ProfileUpdated, rotate_encryption_key-Rotated,
  authorize_device-Authorized, revoke_device-Revoked,
}
use open_social_protocol.Identity.RecoveryCalls.{
  set_recovery_policy-PolicySet, apply_recovery_policy-PolicyApplied,
  cancel_recovery_policy-PolicyCancelled, propose_recovery-Proposed,
  cancel_recovery-RecoveryCancelled, execute_recovery-Executed,
}

module _ ⦃sdk : Sdk⦄ where
  open sdk use {get, put, equal}

  -- One successful call of a method that writes.
  pub data Step (env : Env) (s t : State) : Type 0 where
    registers :
        (account key : Option Bytes) (version : ℕ) (hash : Option Bytes) (uri : Option Text)
        → register env account key version hash uri s ≡ ok t
        → Step env s t
    updates_profile :
        (account hash : Option Bytes) (uri : Option Text) (device : Option Bytes)
        → update_profile env account hash uri device s ≡ ok t
        → Step env s t
    rotates :
        (account key : Option Bytes) (version : ℕ)
        → rotate_encryption_key env account key version s ≡ ok t
        → Step env s t
    authorizes :
        (account device : Option Bytes) (capabilities expires_at : ℕ) (label : Option Text)
        → authorize_device env account device capabilities expires_at label s ≡ ok t
        → Step env s t
    revokes :
        (account device : Option Bytes) → revoke_device env account device s ≡ ok t → Step env s t
    sets_policy :
        (account : Option Bytes) (policy : Option RecoveryPolicy)
        → set_recovery_policy env account policy s ≡ ok t
        → Step env s t
    applies_policy :
        (account : Option Bytes) → apply_recovery_policy env account s ≡ ok t → Step env s t
    cancels_policy :
        (account : Option Bytes) → cancel_recovery_policy env account s ≡ ok t → Step env s t
    proposes :
        (account guardian new_owner : Option Bytes)
        → propose_recovery env account guardian new_owner s ≡ ok t
        → Step env s t
    cancels : (account : Option Bytes) → cancel_recovery env account s ≡ ok t → Step env s t
    executes : (account : Option Bytes) → execute_recovery env account s ≡ ok t → Step env s t

  -- A recovery of `account` whose time has come, which gives it a new owner and a new epoch.
  pub record Recovers (env : Env) (s : State) (account : Bytes) (rec rec' : IdentityRecord)
      : Type 0 where
    pub pending : PendingRecovery
    pub proposed : (load_recovery s account).pending_recovery ≡ some pending
    pub approved : pending.effective_at ≢ 0
    pub waited : pending.effective_at ≤ env.now
    pub new_owner : rec'.owner ≡ pending.new_owner
    pub new_epoch : rec'.device_epoch ≡ add32 rec.device_epoch 1

  pub data OnIdentities (env : Env) (s t : State) : Type 0 where
    same : t.identities ≡ s.identities → OnIdentities env s t
    created :
        (a : Bytes) (rec : IdentityRecord)
        → get s.identities a ≡ none
        → rec.owner ≡ a
        → rec.device_epoch ≡ 0
        → t.identities ≡ put s.identities a rec
        → OnIdentities env s t
    edited :
        (a : Bytes) (rec rec' : IdentityRecord)
        → get s.identities a ≡ some rec
        → rec'.owner ≡ rec.owner
        → rec'.device_epoch ≡ rec.device_epoch
        → t.identities ≡ put s.identities a rec'
        → OnIdentities env s t
    recovered :
        (a : Bytes) (rec rec' : IdentityRecord)
        → get s.identities a ≡ some rec
        → Recovers env s a rec rec'
        → t.identities ≡ put s.identities a rec'
        → OnIdentities env s t

  pub data OnDevices (s t : State) : Type 0 where
    same : t.devices ≡ s.devices → OnDevices s t
    written :
        (a d : Bytes) (rec : IdentityRecord) (dev : DeviceRecord)
        → length a ≡ 25
        → get s.identities a ≡ some rec
        → ((dev.device_epoch ≡ rec.device_epoch)
            ⊎ ((old : DeviceRecord) × (get s.devices (device_key a d) ≡ some old)
                × (dev.device_epoch ≡ old.device_epoch)))
        → t.identities ≡ s.identities
        → t.devices ≡ put s.devices (device_key a d) dev
        → OnDevices s t

  -- A history of `n` calls on a new contract, each with its own view of the chain.
  pub data Reach : ℕ → State → Type 0 where
    here : Reach 0 fresh
    next : {n : ℕ} {s t : State} (env : Env) → Reach n s → Step env s t → Reach (suc n) t

  pub on_identities : (env : Env) (s t : State) → Step env s t → OnIdentities env s t
  on_identities env s t (registers account key version hash uri e) =
      let x = register-Registered env account key version hash uri s t e in
      OnIdentities.created x.a _ x.unknown refl refl x.identities
  on_identities env s t (updates_profile account hash uri device e) =
      let x = update_profile-ProfileUpdated env account hash uri device s t e in
      OnIdentities.edited x.a x.rec _ x.known refl refl x.identities
  on_identities env s t (rotates account key version e) =
      let x = rotate_encryption_key-Rotated env account key version s t e in
      OnIdentities.edited x.a x.rec _ x.known refl refl x.identities
  on_identities env s t (authorizes account device capabilities expires_at label e) =
      OnIdentities.same
        (authorize_device-Authorized env account device capabilities expires_at label s t
          e).identities
  on_identities env s t (revokes account device e) =
      OnIdentities.same (revoke_device-Revoked env account device s t e).identities
  on_identities env s t (sets_policy account policy e) =
      OnIdentities.same (set_recovery_policy-PolicySet env account policy s t e).identities
  on_identities env s t (applies_policy account e) =
      OnIdentities.same (apply_recovery_policy-PolicyApplied env account s t e).identities
  on_identities env s t (cancels_policy account e) =
      OnIdentities.same (cancel_recovery_policy-PolicyCancelled env account s t e).identities
  on_identities env s t (proposes account guardian new_owner e) =
      OnIdentities.same (propose_recovery-Proposed env account guardian new_owner s t e).identities
  on_identities env s t (cancels account e) =
      OnIdentities.same (cancel_recovery-RecoveryCancelled env account s t e).identities
  on_identities env s t (executes account e) =
      let x = execute_recovery-Executed env account s t e in
      OnIdentities.recovered x.a x.rec _ x.known
        (record {
          pending = x.p;
          proposed = x.pending;
          approved = x.reached;
          waited = x.waited;
          new_owner = refl;
          new_epoch = refl;
        })
        x.identities

  pub on_devices : (env : Env) (s t : State) → Step env s t → OnDevices s t
  on_devices env s t (registers account key version hash uri e) =
      OnDevices.same (register-Registered env account key version hash uri s t e).devices
  on_devices env s t (updates_profile account hash uri device e) =
      OnDevices.same (update_profile-ProfileUpdated env account hash uri device s t e).devices
  on_devices env s t (rotates account key version e) =
      OnDevices.same (rotate_encryption_key-Rotated env account key version s t e).devices
  on_devices env s t (authorizes account device capabilities expires_at label e) =
      let x = authorize_device-Authorized env account device capabilities expires_at label s t e in
      OnDevices.written x.a x.d x.rec _ (require_address-ok account "account" x.a x.address).1
        x.known (inl refl) x.identities x.devices
  on_devices env s t (revokes account device e) =
      let x = revoke_device-Revoked env account device s t e in
      OnDevices.written x.a x.d x.rec _ (require_address-ok account "account" x.a x.address).1
        x.known (inr (x.dev, x.found, refl)) x.identities x.devices
  on_devices env s t (sets_policy account policy e) =
      OnDevices.same (set_recovery_policy-PolicySet env account policy s t e).devices
  on_devices env s t (applies_policy account e) =
      OnDevices.same (apply_recovery_policy-PolicyApplied env account s t e).devices
  on_devices env s t (cancels_policy account e) =
      OnDevices.same (cancel_recovery_policy-PolicyCancelled env account s t e).devices
  on_devices env s t (proposes account guardian new_owner e) =
      OnDevices.same (propose_recovery-Proposed env account guardian new_owner s t e).devices
  on_devices env s t (cancels account e) =
      OnDevices.same (cancel_recovery-RecoveryCancelled env account s t e).devices
  on_devices env s t (executes account e) =
      OnDevices.same (execute_recovery-Executed env account s t e).devices
