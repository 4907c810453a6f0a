-- ===== src/Identity/RecoveryCalls.antt =====
-- What a successful call of each recovery method has found, and what it writes.
use open_social_protocol.Prelude.{ℕ, ◌≤◌, ◌≡◌, ◌≢◌, true, Option, none, some, arith}
use open_social_protocol.Chain.{Bytes, Sdk, Env, ok, add32, add64}
use open_social_protocol.Chain.Util.{require_address}
use open_social_protocol.Identity.State.{
  IdentityRecord, RecoveryPolicy, PendingRecovery, PendingPolicy, RecoveryState, State,
}
use open_social_protocol.Identity.Resolve.{load_identity, load_recovery, contains}
use open_social_protocol.Identity.Policy.{
  set_recovery_policy, apply_recovery_policy, cancel_recovery_policy, install_policy,
  validate_policy,
}
use open_social_protocol.Identity.Recovery.{
  approve, fix_effective_at, propose_recovery, cancel_recovery, execute_recovery,
}

module _ ⦃sdk : Sdk⦄ where
  open sdk use {get, put, equal}

  -- The recovery state that `set_recovery_policy` leaves.
  abbrev pub installed : ℕ → RecoveryPolicy → RecoveryState → Option RecoveryPolicy → RecoveryState
  installed now policy r none = record r { policy = some policy; pending_policy = none }
  installed now policy r (some current) = record r {
    pending_policy = some (record { policy = policy; effective_at = add64 now current.delay_ms });
  }

  pub record PolicySet (env : Env) (account : Option Bytes) (policy : Option RecoveryPolicy)
      (s t : State) : Type 0 where
    pub a : Bytes
    pub p : RecoveryPolicy
    pub address : require_address account "account" ≡ ok a
    pub given : policy ≡ some p
    pub valid : validate_policy p a ≡ ok tt
    pub recovery :
        t.recovery
        ≡ put s.recovery a (installed env.now p (load_recovery s a) (load_recovery s a).policy)
    pub identities : t.identities ≡ s.identities
    pub devices : t.devices ≡ s.devices

  pub set_recovery_policy-PolicySet :
      (env : Env) (account : Option Bytes) (policy : Option RecoveryPolicy) (s t : State)
      → set_recovery_policy env account policy s ≡ ok t
      → PolicySet env account policy s t
  unfolding set_recovery_policy install_policy
  set_recovery_policy-PolicySet env account policy s t h = ground arith

  pub record PolicyApplied (env : Env) (account : Option Bytes) (s t : State) : Type 0 where
    pub a : Bytes
    pub p : PendingPolicy
    pub address : require_address account "account" ≡ ok a
    pub queued : (load_recovery s a).pending_policy ≡ some p
    pub waited : p.effective_at ≤ env.now
    pub recovery :
        t.recovery
        ≡ put s.recovery a
            (record { policy = some p.policy; pending_policy = none; pending_recovery = none })
    pub identities : t.identities ≡ s.identities
    pub devices : t.devices ≡ s.devices

  pub apply_recovery_policy-PolicyApplied :
      (env : Env) (account : Option Bytes) (s t : State)
      → apply_recovery_policy env account s ≡ ok t
      → PolicyApplied env account s t
  unfolding apply_recovery_policy
  apply_recovery_policy-PolicyApplied env account s t h = ground arith

  pub record PolicyCancelled (account : Option Bytes) (s t : State) : Type 0 where
    pub a : Bytes
    pub address : require_address account "account" ≡ ok a
    pub recovery :
        t.recovery ≡ put s.recovery a (record (load_recovery s a) { pending_policy = none })
    pub identities : t.identities ≡ s.identities
    pub devices : t.devices ≡ s.devices

  pub cancel_recovery_policy-PolicyCancelled :
      (env : Env) (account : Option Bytes) (s t : State)
      → cancel_recovery_policy env account s ≡ ok t
      → PolicyCancelled account s t
  unfolding cancel_recovery_policy
  cancel_recovery_policy-PolicyCancelled env account s t h = ground arith

  pub record Proposed (env : Env) (account guardian new_owner : Option Bytes) (s t : State)
      : Type 0 where
    pub a : Bytes
    pub g : Bytes
    pub owner : Bytes
    pub policy : RecoveryPolicy
    pub approved : PendingRecovery
    pub address : require_address account "account" ≡ ok a
    pub guardian_address : require_address guardian "guardian" ≡ ok g
    pub owner_address : require_address new_owner "new_owner" ≡ ok owner
    pub active : (load_recovery s a).policy ≡ some policy
    pub signed : env.authorized g ≡ true
    pub listed : contains policy.guardians g ≡ true
    pub approval : approve env.now g owner (load_recovery s a).pending_recovery ≡ ok approved
    pub recovery :
        t.recovery
        ≡ put s.recovery a (record (load_recovery s a) {
          pending_recovery = some (fix_effective_at env.now policy approved);
        })
    pub identities : t.identities ≡ s.identities
    pub devices : t.devices ≡ s.devices

  pub propose_recovery-Proposed :
      (env : Env) (account guardian new_owner : Option Bytes) (s t : State)
      → propose_recovery env account guardian new_owner s ≡ ok t
      → Proposed env account guardian new_owner s t
  unfolding propose_recovery
  propose_recovery-Proposed env account guardian new_owner s t h = ground arith

  pub record RecoveryCancelled (account : Option Bytes) (s t : State) : Type 0 where
    pub a : Bytes
    pub address : require_address account "account" ≡ ok a
    pub recovery :
        t.recovery ≡ put s.recovery a (record (load_recovery s a) { pending_recovery = none })
    pub identities : t.identities ≡ s.identities
    pub devices : t.devices ≡ s.devices

  pub cancel_recovery-RecoveryCancelled :
      (env : Env) (account : Option Bytes) (s t : State)
      → cancel_recovery env account s ≡ ok t
      → RecoveryCancelled account s t
  unfolding cancel_recovery
  cancel_recovery-RecoveryCancelled env account s t h = ground arith

  pub record Executed (env : Env) (account : Option Bytes) (s t : State) : Type 0 where
    pub a : Bytes
    pub rec : IdentityRecord
    pub p : PendingRecovery
    pub address : require_address account "account" ≡ ok a
    pub known : get s.identities a ≡ some rec
    pub pending : (load_recovery s a).pending_recovery ≡ some p
    pub reached : p.effective_at ≢ 0
    pub waited : p.effective_at ≤ env.now
    pub identities :
        t.identities
        ≡ put s.identities a (record rec {
          owner = p.new_owner;
          device_epoch = add32 rec.device_epoch 1;
          updated_at = env.now;
        })
    pub recovery :
        t.recovery
        ≡ put s.recovery a
            (record (load_recovery s a) { pending_recovery = none; pending_policy = none })
    pub devices : t.devices ≡ s.devices

  pub execute_recovery-Executed :
      (env : Env) (account : Option Bytes) (s t : State)
      → execute_recovery env account s ≡ ok t
      → Executed env account s t
  unfolding execute_recovery load_identity
  execute_recovery-Executed env account s t h = ground arith
