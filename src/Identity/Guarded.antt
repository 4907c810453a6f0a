-- ===== src/Identity/Guarded.antt =====
-- What every stored recovery policy and every pending recovery satisfies after any history of calls.
use open_social_protocol.Prelude.{
  ℕ, ◌≡◌, inl, inr, refl, sym, subst, true, Option, none, some, arith, Bool-cases,
}
use open_social_protocol.Chain.{Bytes, Sdk, Env, ok}
use open_social_protocol.Identity.State.{
  RecoveryPolicy, PendingPolicy, PendingRecovery, RecoveryState, State,
}
use open_social_protocol.Identity.Resolve.{contains, load_recovery}
use open_social_protocol.Identity.Recovery.{propose_recovery, approve, fix_effective_at}
use open_social_protocol.Identity.Calls.{
  register-Registered, update_profile-ProfileUpdated, rotate_encryption_key-Rotated,
  authorize_device-Authorized, revoke_device-Revoked,
}
use open_social_protocol.Identity.RecoveryCalls.{
  Proposed, installed, set_recovery_policy-PolicySet, apply_recovery_policy-PolicyApplied,
  cancel_recovery_policy-PolicyCancelled, propose_recovery-Proposed,
  cancel_recovery-RecoveryCancelled, execute_recovery-Executed,
}
use open_social_protocol.Identity.Effects.{
  Step, registers, updates_profile, rotates, authorizes, revokes, sets_policy, applies_policy,
  cancels_policy, proposes, cancels, executes, Reach, here, next,
}
use open_social_protocol.Chain.Util.Require.{require_address-ok}
use open_social_protocol.Identity.Approvals.{Approval, Approved}
use open_social_protocol.Identity.Guardians.{
  PendingSound-more, PendingSound, approve-ApprovalSound, fix_effective_at-ApprovalSound,
}
use open_social_protocol.Identity.Validity.{PolicyValid, validate_policy-PolicyValid}

module _ ⦃sdk : Sdk⦄ where
  open sdk use {get, put, equal, get-put, get-empty, equal_iff}

  abbrev pub PoliciesValid : Bytes → Option RecoveryPolicy → Type 0
  PoliciesValid account none = Unit
  PoliciesValid account (some policy) = PolicyValid account policy

  abbrev pub QueuedValid : Bytes → Option PendingPolicy → Type 0
  QueuedValid account none = Unit
  QueuedValid account (some p) = PolicyValid account p.policy

  -- The recovery state of an account.
  pub record IsGuarded (said : ℕ → Bytes → Bytes → Type 0) (account : Bytes) (r : RecoveryState)
      : Type 0 where
    pub active : PoliciesValid account r.policy
    pub queued : QueuedValid account r.pending_policy
    pub pending : PendingSound said r.policy r.pending_recovery

  installed-IsGuarded :
      (said : ℕ → Bytes → Bytes → Type 0) (now : ℕ) (account : Bytes) (p : RecoveryPolicy)
      (r : RecoveryState)
      → IsGuarded said account r
      → PolicyValid account p
      → IsGuarded said account (installed now p r r.policy)
  installed-IsGuarded said now account p r g v = ground arith

  proposed-IsGuarded :
      (said : ℕ → Bytes → Bytes → Type 0) (now : ℕ) (account g owner : Bytes)
      (policy : RecoveryPolicy) (r : RecoveryState) (p : PendingRecovery)
      → IsGuarded said account r
      → r.policy ≡ some policy
      → contains policy.guardians g ≡ true
      → said now g owner
      → approve now g owner r.pending_recovery ≡ ok p
      → IsGuarded said account
          (record r { pending_recovery = some (fix_effective_at now policy p) })
  proposed-IsGuarded said now account g owner policy r p v e h told a =
      let (sound, own) =
        approve-ApprovalSound said now g owner policy r.pending_recovery p (rw e at v.pending) h
          told a in
      record {
        active = v.active;
        queued = v.queued;
        pending = rw e (fix_effective_at-ApprovalSound said now g policy p sound (rw own told));
      }

  -- What a call does to the recovery states, with the approvals given so far.
  data OnRecovery (said : Bytes → ℕ → Bytes → Bytes → Type 0) (s t : State) : Type 0 where
    same : t.recovery ≡ s.recovery → OnRecovery said s t
    written :
        (a : Bytes) (r : RecoveryState)
        → t.recovery ≡ put s.recovery a r
        → (IsGuarded (said a) a (load_recovery s a) → IsGuarded (said a) a r)
        → OnRecovery said s t

  -- The guardian's approval by the call.
  Proposed-Approval :
      (env : Env) (account guardian new_owner : Option Bytes) (s t : State)
      → propose_recovery env account guardian new_owner s ≡ ok t
      → (x : Proposed env account guardian new_owner s t) → Approval env s t x.a env.now x.g x.owner
  Proposed-Approval env account guardian new_owner s t e x = record {
    account_argument = account;
    guardian_argument = guardian;
    owner_argument = new_owner;
    call = e;
    for_account = sym (require_address-ok account "account" x.a x.address).0;
    by = sym (require_address-ok guardian "guardian" x.g x.guardian_address).0;
    for_owner = sym (require_address-ok new_owner "new_owner" x.owner x.owner_address).0;
    signed = x.signed;
    time = refl;
  }

  on_recovery :
      (said : Bytes → ℕ → Bytes → Bytes → Type 0) (env : Env) (s t : State)
      → ((a : Bytes) (at : ℕ) (g o : Bytes) → Approval env s t a at g o → said a at g o)
      → Step env s t
      → OnRecovery said s t
  on_recovery said env s t told (registers account key version hash uri e) =
      OnRecovery.same (register-Registered env account key version hash uri s t e).recovery
  on_recovery said env s t told (updates_profile account hash uri device e) =
      OnRecovery.same (update_profile-ProfileUpdated env account hash uri device s t e).recovery
  on_recovery said env s t told (rotates account key version e) =
      OnRecovery.same (rotate_encryption_key-Rotated env account key version s t e).recovery
  on_recovery said env s t told (authorizes account device capabilities expires_at label e) =
      OnRecovery.same
        (authorize_device-Authorized env account device capabilities expires_at label s t
          e).recovery
  on_recovery said env s t told (revokes account device e) =
      OnRecovery.same (revoke_device-Revoked env account device s t e).recovery
  on_recovery said env s t told (sets_policy account policy e) =
      let x = set_recovery_policy-PolicySet env account policy s t e in
      OnRecovery.written x.a _ x.recovery (λ v.
        installed-IsGuarded (said x.a) env.now x.a x.p (load_recovery s x.a) v
          (validate_policy-PolicyValid x.p x.a x.valid))
  on_recovery said env s t told (applies_policy account e) =
      let x = apply_recovery_policy-PolicyApplied env account s t e in
      OnRecovery.written x.a _ x.recovery (λ v. record {
        active = subst (QueuedValid x.a) x.queued v.queued;
        queued = tt;
        pending = tt;
      })
  on_recovery said env s t told (cancels_policy account e) =
      let x = cancel_recovery_policy-PolicyCancelled env account s t e in
      OnRecovery.written x.a _ x.recovery
        (λ v. record { active = v.active; queued = tt; pending = v.pending })
  on_recovery said env s t told (proposes account guardian new_owner e) =
      let x = propose_recovery-Proposed env account guardian new_owner s t e in
      OnRecovery.written x.a _ x.recovery (λ v.
        proposed-IsGuarded (said x.a) env.now x.a x.g x.owner x.policy (load_recovery s x.a)
          x.approved v x.active x.listed
          (told x.a env.now x.g x.owner (Proposed-Approval env account guardian new_owner s t e x))
          x.approval)
  on_recovery said env s t told (cancels account e) =
      let x = cancel_recovery-RecoveryCancelled env account s t e in
      OnRecovery.written x.a _ x.recovery
        (λ v. record { active = v.active; queued = v.queued; pending = ground arith })
  on_recovery said env s t told (executes account e) =
      let x = execute_recovery-Executed env account s t e in
      OnRecovery.written x.a _ x.recovery
        (λ v. record { active = v.active; queued = tt; pending = ground arith })

  Step-IsGuarded :
      (said : Bytes → ℕ → Bytes → Bytes → Type 0) (env : Env) (s t : State)
      → ((a : Bytes) (at : ℕ) (g o : Bytes) → Approval env s t a at g o → said a at g o)
      → Step env s t
      → ((a : Bytes) → IsGuarded (said a) a (load_recovery s a))
      → (a : Bytes) → IsGuarded (said a) a (load_recovery t a)
  unfolding load_recovery
  Step-IsGuarded said env s t told st v a = elim (on_recovery said env s t told st) [
    | OnRecovery.same e ↦ rw e (v a)
    | OnRecovery.written b r e keeps ↦ elim (Bool-cases (equal b a)) [
      | inl hit ↦
          rw (e, get-put, hit)
            (subst (λ z. IsGuarded (said z) z r) ((equal_iff b a).0 hit) (keeps (v b)))
      | inr other ↦ rw (e, get-put, other) (v a)
    ]
  ]

  IsGuarded-more :
      (said more : ℕ → Bytes → Bytes → Type 0) (a : Bytes) (r : RecoveryState)
      → ((at : ℕ) (g o : Bytes) → said at g o → more at g o)
      → IsGuarded said a r
      → IsGuarded more a r
  IsGuarded-more said more a r f v = record {
    active = v.active;
    queued = v.queued;
    pending = PendingSound-more said more r.policy r.pending_recovery f v.pending;
  }

  pub Reach-IsGuarded :
      {n : ℕ} {s : State}
      → (r : Reach n s) → (a : Bytes) → IsGuarded (Approved r a) a (load_recovery s a)
  unfolding load_recovery
  Reach-IsGuarded here a = rw (get-empty a) (record { active = tt; queued = tt; pending = tt })
  Reach-IsGuarded (next {n} {s} {t} env r st) a =
      Step-IsGuarded (λ b. Approved (next env r st) b) env s t (λ b at g o x. inr x) st
        (λ b.
          IsGuarded-more (Approved r b) (Approved (next env r st) b) b (load_recovery s b)
            (λ at g o x. inl x) (Reach-IsGuarded r b))
        a
