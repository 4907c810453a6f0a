-- ===== src/Identity/Recovery.antt =====
-- `propose_recovery`, `cancel_recovery` and `execute_recovery`.
use open_social_protocol.Prelude.{
  ℕ, Option, none, some, [], ◌∷◌, ◌++◌, ◌&&◌, not, ◌==◌, leb, length, if◌then◌else◌,
}
use open_social_protocol.Chain.{
  Bytes, Sdk, Env, Result, ok, ◌>>=◌, ◌>>◌, require, require_some, add64, add32,
}
use open_social_protocol.Chain.Util.{require_address}
use open_social_protocol.Identity.State.{
  RecoveryPolicy, PendingPolicy, PendingRecovery, recovery_proposed, recovered, State, emit,
}
use open_social_protocol.Identity.Resolve.{load_identity, require_owner, contains, load_recovery}
use open_social_protocol.Identity.Policy.{
  put_recovery, emit_recovery_cancelled, emit_policy_cancelled,
}

-- A proposal with one approval.
abbrev pub fresh_proposal : ℕ → Bytes → Bytes → PendingRecovery
fresh_proposal now guardian new_owner = record {
  new_owner = new_owner;
  approvals = guardian ∷ [];
  effective_at = 0;
  proposed_at = now;
}

-- Once the threshold is reached the time of effect is fixed.
unfoldable pub fix_effective_at : ℕ → RecoveryPolicy → PendingRecovery → PendingRecovery
fix_effective_at now policy p =
    if p.effective_at == 0 && leb policy.threshold (length p.approvals)
    then record p { effective_at = add64 now policy.delay_ms }
    else p

module _ ⦃sdk : Sdk⦄ where
  open sdk use {get, put, equal}

  -- One more approval of a proposal that is there for the same owner, or a fresh proposal.
  unfoldable pub approve : ℕ → Bytes → Bytes → Option PendingRecovery → Result PendingRecovery
  approve now guardian new_owner none = ok (fresh_proposal now guardian new_owner)
  approve now guardian new_owner (some p) =
      if not (equal p.new_owner new_owner) then ok (fresh_proposal now guardian new_owner) else do
        require (not (contains p.approvals guardian)) "already approved"
        ok (record p { approvals = p.approvals ++ (guardian ∷ []) })

  -- Identity.propose_recovery
  unfoldable pub propose_recovery :
      Env → Option Bytes → Option Bytes → Option Bytes → State → Result State
  propose_recovery env account guardian new_owner s = do
    a ← require_address account "account"
    g ← require_address guardian "guardian"
    require (env.authorized g) "authorization failed"
    rec ← load_identity s a
    let r = load_recovery s a
    policy ← require_some r.policy "no recovery policy"
    require (contains policy.guardians g) "not a guardian"
    owner ← require_address new_owner "new_owner"
    require (not (equal owner rec.owner)) "new_owner must differ from current owner"
    approved ← approve env.now g owner r.pending_recovery
    let pending = fix_effective_at env.now policy approved
    ok (
        emit
          (recovery_proposed a g owner (length pending.approvals) policy.threshold
            pending.effective_at env.now)
          (a ∷ g ∷ owner ∷ []) (put_recovery a (record r { pending_recovery = some pending }) s))

  -- Identity.cancel_recovery
  unfoldable pub cancel_recovery : Env → Option Bytes → State → Result State
  cancel_recovery env account s = do
    a ← require_address account "account"
    rec ← load_identity s a
    owner ← require_owner env rec
    let r = load_recovery s a
    pending ← require_some r.pending_recovery "no pending recovery"
    ok (emit_recovery_cancelled a env.now (put_recovery a (record r { pending_recovery = none }) s))

  -- The event of a policy change that a recovery has voided.
  abbrev pub if_pending_policy : Bytes → ℕ → Option PendingPolicy → State → State
  if_pending_policy account now none s = s
  if_pending_policy account now (some p) s = emit_policy_cancelled account now s

  -- Identity.execute_recovery
  unfoldable pub execute_recovery : Env → Option Bytes → State → Result State
  execute_recovery env account s = do
    a ← require_address account "account"
    rec ← load_identity s a
    let r = load_recovery s a
    pending ← require_some r.pending_recovery "no pending recovery"
    require (not (pending.effective_at == 0)) "recovery threshold not reached"
    require (leb pending.effective_at env.now) "recovery delay not elapsed"
    let rec' = record rec {
      owner = pending.new_owner;
      device_epoch = add32 rec.device_epoch 1;
      updated_at = env.now;
    }
    let r' = record r { pending_recovery = none; pending_policy = none }
    ok (
        emit (recovered a rec.owner pending.new_owner rec'.device_epoch env.now)
          (a ∷ rec.owner ∷ pending.new_owner ∷ [])
          (if_pending_policy a env.now r.pending_policy
            (put_recovery a r' (record s { identities = put s.identities a rec' }))))
