-- ===== src/Identity/Quorum.antt =====
-- What a recovery that takes effect had behind it, after any history of calls.
use open_social_protocol.Prelude.{ℕ, ◌≤◌, ◌≡◌, ◌≢◌, inl, inr, refl, subst, Option, none, some}
use open_social_protocol.Chain.{Bytes, Sdk, Env, ok, add32}
use open_social_protocol.Chain.Util.{value}
use open_social_protocol.Chain.Util.Require.{require_address-ok}
use open_social_protocol.Identity.State.{IdentityRecord, RecoveryPolicy, PendingRecovery, State}
use open_social_protocol.Identity.Resolve.{load_recovery}
use open_social_protocol.Identity.Recovery.{execute_recovery}
use open_social_protocol.Identity.RecoveryCalls.{Executed, execute_recovery-Executed}
use open_social_protocol.Identity.Effects.{Step, Recovers, Reach}
use open_social_protocol.Identity.Owners.{Step-owner}
use open_social_protocol.Identity.Approvals.{Approved}
use open_social_protocol.Identity.Guardians.{Fixed, ApprovalSound, PendingSound}
use open_social_protocol.Identity.Validity.{PolicyValid}
use open_social_protocol.Identity.Guarded.{PoliciesValid, Reach-IsGuarded}

module _ ⦃sdk : Sdk⦄ where
  open sdk use {get, put, equal, get-put, get-empty, equal_iff}

  -- What stands behind a recovery of `account` after the history: the pending recovery is the stored one,
  -- and its approvals are calls of the history.
  pub record Quorum {n : ℕ} {s : State} (history : Reach n s) (env : Env) (account : Bytes)
      (t : State) : Type 0 where
    pub policy : RecoveryPolicy
    pub pending : PendingRecovery
    pub old : IdentityRecord
    pub rec : IdentityRecord
    pub active : (load_recovery s account).policy ≡ some policy
    pub proposed : (load_recovery s account).pending_recovery ≡ some pending
    pub valid : PolicyValid account policy
    pub approvals : ApprovalSound (Approved history account) policy pending
    pub time : Fixed (Approved history account) policy pending
    pub fixed : pending.effective_at ≢ 0
    pub waited : pending.effective_at ≤ env.now
    pub before : get s.identities account ≡ some old
    pub stored : get t.identities account ≡ some rec
    pub new_owner : rec.owner ≡ pending.new_owner
    pub new_epoch : rec.device_epoch ≡ add32 old.device_epoch 1

  pending-in_force :
      (said : ℕ → Bytes → Bytes → Type 0) (policy : Option RecoveryPolicy) (p : PendingRecovery)
      → PendingSound said policy (some p)
      → (q : RecoveryPolicy) × (policy ≡ some q) × ApprovalSound said q p
  pending-in_force said none p v = absurd v
  pending-in_force said (some q) p v = (q, refl, v)

  -- A recovery has the quorum of the policy in force.
  Recovers-Quorum :
      {n : ℕ} (env : Env) (a : Bytes) (s t : State) (old rec : IdentityRecord)
      → (r : Reach n s) → Recovers env s a old rec
      → get s.identities a ≡ some old
      → get t.identities a ≡ some rec
      → Quorum r env a t
  Recovers-Quorum env a s t old rec r x before stored =
      let g = Reach-IsGuarded r a in
      let (q, e, v) =
        pending-in_force (Approved r a) (load_recovery s a).policy x.pending
          (subst (PendingSound (Approved r a) (load_recovery s a).policy) x.proposed g.pending) in
      record {
        policy = q;
        pending = x.pending;
        old = old;
        rec = rec;
        active = e;
        proposed = x.proposed;
        valid = subst (PoliciesValid a) e g.active;
        approvals = v;
        time = elim v.reached [ inl zero_time ↦ absurd (x.approved zero_time) | inr k ↦ k ];
        fixed = x.approved;
        waited = x.waited;
        before = before;
        stored = stored;
        new_owner = x.new_owner;
        new_epoch = x.new_epoch;
      }

  Executed-Quorum :
      {n : ℕ} (env : Env) (account : Option Bytes) (s t : State) (r : Reach n s)
      → (x : Executed env account s t) → Quorum r env x.a t
  Executed-Quorum env account s t r x =
      Recovers-Quorum env x.a s t x.rec
        (record x.rec {
          owner = x.p.new_owner;
          device_epoch = add32 x.rec.device_epoch 1;
          updated_at = env.now;
        })
        r
        (record {
          pending = x.p;
          proposed = x.pending;
          approved = x.reached;
          waited = x.waited;
          new_owner = refl;
          new_epoch = refl;
        })
        x.known (rw (x.identities, get-put, (equal_iff x.a x.a).1 refl) refl)

  -- After any history of calls on a new contract, if `execute_recovery` succeeds for an account, then
  -- the account has a valid policy in force (distinct guardians, none of them the account, and a
  -- threshold from 1 to their number); the pending recovery that is stored for it has at least the
  -- threshold of approvals, by distinct guardians of that policy, each of whom has signed a successful
  -- `propose_recovery` of that history for the account and the new owner; its time of effect has come
  -- and is the policy's delay (in 64 bits) after one of these calls; the owner that is now stored is
  -- that new owner, and the epoch of the account has moved on by one.
  pub execute_recovery_needs-Quorum :
      (n : ℕ) (s t : State) (env : Env) (account : Option Bytes)
      → (r : Reach n s) → execute_recovery env account s ≡ ok t
      → Quorum r env (value account) t
  execute_recovery_needs-Quorum n s t env account r e =
      let x = execute_recovery-Executed env account s t e in
      let (named, _) = require_address-ok account "account" x.a x.address in
      subst (λ a. Quorum r env a t) named (Executed-Quorum env account s t r x)

  -- What one call does to a registered account: its owner and its epoch stay, or a quorum recovers it.
  pub data Governed {n : ℕ} {s : State} (history : Reach n s) (env : Env) (a : Bytes) (t : State)
      (old : IdentityRecord) : Type 0 where
    unmoved :
        (rec : IdentityRecord)
        → get t.identities a ≡ some rec
        → rec.owner ≡ old.owner
        → rec.device_epoch ≡ old.device_epoch
        → Governed history env a t old
    recovered : Quorum history env a t → Governed history env a t old

  -- After any history of calls on a new contract, one more call leaves the owner and the epoch of a
  -- registered account as they are, or it recovers the account: a valid policy is in force, the pending
  -- recovery that is stored has at least the threshold of approvals by distinct guardians of that
  -- policy, each has signed a successful `propose_recovery` of that history for the account and the new
  -- owner, the policy's delay (in 64 bits) after one of these calls has passed, the owner is now the new
  -- one, and the epoch moves on by one. Either way the account stays registered.
  pub owner_changes_by-Quorum :
      (n : ℕ) (s t : State) (env : Env) (a : Bytes) (rec : IdentityRecord)
      → (r : Reach n s) → get s.identities a ≡ some rec
      → Step env s t
      → Governed r env a t rec
  owner_changes_by-Quorum n s t env a rec r known st =
      let x = Step-owner env s t a rec known st in
      elim (x.how) [
        | inl (owner, epoch) ↦ Governed.unmoved x.rec' x.stored owner epoch
        | inr recovers ↦
            Governed.recovered (Recovers-Quorum env a s t rec x.rec' r recovers known x.stored)
      ]
