-- ===== src/Identity/Policy.antt =====
-- `set_recovery_policy`, `apply_recovery_policy` and `cancel_recovery_policy`.
use open_social_protocol.Prelude.{ℕ, Option, none, some, List, [], ◌∷◌, ◌++◌, not, leb, length}
use open_social_protocol.Chain.{
  Bytes, Sdk, Env, Result, ok, ◌>>=◌, ◌>>◌, require, require_some, add64,
}
use open_social_protocol.Chain.Util.{require_address}
use open_social_protocol.Identity.State.{
  max_guardians, max_recovery_delay_ms, RecoveryPolicy, PendingPolicy, PendingRecovery,
  RecoveryState, recovery_policy_proposed, recovery_policy_set, recovery_policy_cancelled,
  recovery_cancelled, State, emit,
}
use open_social_protocol.Identity.Resolve.{load_identity, require_owner, load_recovery}

module _ ⦃sdk : Sdk⦄ where
  open sdk use {get, put, equal}

  -- The inner loop of `validatePolicy`: the guardians before this one differ from it.
  unfoldable pub require_distinct : List Bytes → Bytes → Result (Unit {0})
  require_distinct [] g = ok tt
  require_distinct (j ∷ seen) g =
      require (not (equal j g)) "guardians must be distinct" >> require_distinct seen g

  -- The outer loop, with the guardians that it has passed.
  unfoldable pub validate_guardians : Bytes → List Bytes → List Bytes → Result (Unit {0})
  validate_guardians account seen [] = ok tt
  validate_guardians account seen (g ∷ rest) = do
    a ← require_address (some g) "guardian"
    require (not (equal g account)) "guardian must differ from account"
    require_distinct seen g
    validate_guardians account (seen ++ (g ∷ [])) rest

  -- Identity.validatePolicy
  unfoldable pub validate_policy : RecoveryPolicy → Bytes → Result (Unit {0})
  validate_policy policy account = do
    require (leb 1 (length policy.guardians)) "at least one guardian is required"
    require (leb (length policy.guardians) max_guardians) "too many guardians"
    validate_guardians account [] policy.guardians
    require (leb 1 policy.threshold) "threshold must be >= 1"
    require (leb policy.threshold (length policy.guardians)) "threshold exceeds guardian count"
    require (leb policy.delay_ms max_recovery_delay_ms) "delay_ms too large"

  -- Identity.policyImpacted
  abbrev pub policy_impacted : Bytes → RecoveryPolicy → List Bytes
  policy_impacted account policy = account ∷ policy.guardians

  -- Identity.emitRecoveryCancelled
  abbrev pub emit_recovery_cancelled : Bytes → ℕ → State → State
  emit_recovery_cancelled account now s = emit (recovery_cancelled account now) (account ∷ []) s

  -- Identity.emitPolicyCancelled
  abbrev pub emit_policy_cancelled : Bytes → ℕ → State → State
  emit_policy_cancelled account now s =
      emit (recovery_policy_cancelled account now) (account ∷ []) s

  abbrev pub put_recovery : Bytes → RecoveryState → State → State
  put_recovery account r s = record s { recovery = put s.recovery account r }

  -- The first policy applies at once; a later one waits for the current policy's delay.
  unfoldable pub install_policy :
      Env → Bytes → RecoveryPolicy → RecoveryState → Option RecoveryPolicy → State → State
  install_policy env account policy r none s =
      emit (recovery_policy_set account policy env.now) (policy_impacted account policy)
        (put_recovery account (record r { policy = some policy; pending_policy = none }) s)
  install_policy env account policy r (some current) s =
      let effective_at = add64 env.now current.delay_ms in
      let pending : PendingPolicy = record { policy = policy; effective_at = effective_at } in
      emit (recovery_policy_proposed account policy effective_at) (policy_impacted account policy)
        (put_recovery account (record r { pending_policy = some pending }) s)

  -- Identity.set_recovery_policy
  unfoldable pub set_recovery_policy :
      Env → Option Bytes → Option RecoveryPolicy → State → Result State
  set_recovery_policy env account policy s = do
    a ← require_address account "account"
    rec ← load_identity s a
    owner ← require_owner env rec
    p ← require_some policy "policy is required"
    validate_policy p a
    let r = load_recovery s a
    ok (install_policy env a p r r.policy s)

  -- The event of a recovery that a policy change has voided.
  abbrev pub if_pending_recovery : Bytes → ℕ → Option PendingRecovery → State → State
  if_pending_recovery account now none s = s
  if_pending_recovery account now (some p) s = emit_recovery_cancelled account now s

  -- Identity.apply_recovery_policy
  unfoldable pub apply_recovery_policy : Env → Option Bytes → State → Result State
  apply_recovery_policy env account s = do
    a ← require_address account "account"
    rec ← load_identity s a
    let r = load_recovery s a
    pending ← require_some r.pending_policy "no pending recovery policy"
    require (leb pending.effective_at env.now) "recovery policy delay not elapsed"
    let r' : RecoveryState = record {
      policy = some pending.policy;
      pending_policy = none;
      pending_recovery = none;
    }
    ok (
        emit (recovery_policy_set a pending.policy env.now) (policy_impacted a pending.policy)
          (if_pending_recovery a env.now r.pending_recovery (put_recovery a r' s)))

  -- Identity.cancel_recovery_policy
  unfoldable pub cancel_recovery_policy : Env → Option Bytes → State → Result State
  cancel_recovery_policy env account s = do
    a ← require_address account "account"
    rec ← load_identity s a
    owner ← require_owner env rec
    let r = load_recovery s a
    pending ← require_some r.pending_policy "no pending recovery policy"
    ok (emit_policy_cancelled a env.now (put_recovery a (record r { pending_policy = none }) s))
