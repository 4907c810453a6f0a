-- ===== src/Communities/Ownership.antt =====
-- The calls of the communities contract as a step relation, and how the owner of a community changes.
use open_social_protocol.Prelude.{
  ℕ, ◌≡◌, ◌∙◌, ◌≤◌, inl, inr, refl, sym, true, false, Option, none, some, leb, arith,
}
use open_social_protocol.Chain.{Bytes, Text, Sdk, Env, ok, add64}
use open_social_protocol.Chain.Util.{is_empty, value}
use open_social_protocol.Chain.Actor.{require_authorized}
use open_social_protocol.Chain.Lookup.{put_at, some_injective}
use open_social_protocol.Communities.State.{CommunityRecord, State}
use open_social_protocol.Communities.Roles.{set_identity_contract, identity_contract}
use open_social_protocol.Communities.Methods.{
  CreateArguments, RoleArguments, create_community, set_role, set_policy, set_label,
}
use open_social_protocol.Communities.Transfer.{
  propose_owner_transfer, cancel_owner_transfer, execute_owner_transfer,
}
use open_social_protocol.Communities.Calls.{
  set_identity_contract-SameMaps, set_label-SameMaps, create_community-NewCommunity,
  set_role-RoleSet, set_policy-PolicySet, propose_owner_transfer-Proposed,
  cancel_owner_transfer-Cancelled, execute_owner_transfer-Transferred,
}

some-value : (v : Option Bytes) → is_empty v ≡ false → v ≡ some (value v)
unfolding is_empty
some-value v h = ground arith

due : (at now : ℕ) → leb at now ≡ true → at ≤ now
due at now h = ground arith

module _ ⦃sdk : Sdk⦄ where
  open sdk use {get, put, equal, equal_iff}

  -- One successful call of a method that writes.
  pub data Step (env : Env) (s t : State) : Type 0 where
    sets_identity :
        (address : Option Bytes) → set_identity_contract env address s ≡ ok t → Step env s t
    creates : (args : CreateArguments) → create_community env args s ≡ ok t → Step env s t
    sets_role : (args : RoleArguments) → set_role env args s ≡ ok t → Step env s t
    sets_policy :
        (community_id actor hash : Option Bytes) (uri : Option Text) (device : Option Bytes)
        → set_policy env community_id actor hash uri device s ≡ ok t
        → Step env s t
    sets_label :
        (community_id actor post : Option Bytes) (label reason : Option Text)
        (device : Option Bytes)
        → set_label env community_id actor post label reason device s ≡ ok t
        → Step env s t
    proposes :
        (community_id owner new_owner : Option Bytes)
        → propose_owner_transfer env community_id owner new_owner s ≡ ok t
        → Step env s t
    cancels :
        (community_id owner : Option Bytes)
        → cancel_owner_transfer env community_id owner s ≡ ok t
        → Step env s t
    executes :
        (community_id : Option Bytes)
        → execute_owner_transfer env community_id s ≡ ok t
        → Step env s t

  -- Any number of calls, each with its own view of the chain.
  pub data Reach (s : State) : State → Type 0 where
    here : Reach s s
    next : {t u : State} (env : Env) → Reach s t → Step env t u → Reach s u

  -- The account's own key signs, not a device.
  pub record Signed (env : Env) (s : State) (account : Bytes) : Type 0 where
    pub signer : Bytes
    pub by : require_authorized env (identity_contract s) account none 0 ≡ ok signer

  -- What one call does to the ownership of a community.
  pub data Ownership (env : Env) (s : State) (old rec : CommunityRecord) : Type 0 where
    kept :
        rec.owner ≡ old.owner
        → rec.pending_owner ≡ old.pending_owner
        → rec.transfer_effective_at ≡ old.transfer_effective_at
        → Ownership env s old rec
    proposed :
        rec.owner ≡ old.owner
        → rec.transfer_effective_at ≡ add64 env.now old.transfer_delay_ms
        → Signed env s old.owner
        → Ownership env s old rec
    withdrawn :
        rec.owner ≡ old.owner
        → rec.pending_owner ≡ none
        → Signed env s old.owner
        → Ownership env s old rec
    handed_over :
        old.pending_owner ≡ some rec.owner
        → rec.pending_owner ≡ none
        → old.transfer_effective_at ≤ env.now
        → Ownership env s old rec

  -- What no call changes of a community.
  pub record SameCommunity (old rec : CommunityRecord) : Type 0 where
    pub id : rec.id ≡ old.id
    pub name : rec.name ≡ old.name
    pub transfer_delay_ms : rec.transfer_delay_ms ≡ old.transfer_delay_ms
    pub created_at : rec.created_at ≡ old.created_at

  abbrev unchanged : (rec : CommunityRecord) → SameCommunity rec rec
  unchanged rec = record { id = refl; name = refl; transfer_delay_ms = refl; created_at = refl }

  -- The record of a community after one call.
  pub record After (env : Env) (s t : State) (k : Bytes) (old : CommunityRecord) : Type 0 where
    pub rec : CommunityRecord
    pub found : get t.communities k ≡ some rec
    pub same_community : SameCommunity old rec
    pub ownership : Ownership env s old rec

  untouched-After :
      (env : Env) (s t : State) (k : Bytes) (old : CommunityRecord)
      → get t.communities k ≡ some old
      → After env s t k old
  untouched-After env s t k old h = record {
    rec = old;
    found = h;
    same_community = unchanged old;
    ownership = kept refl refl refl;
  }

  written-After :
      (env : Env) (s t : State) (id k : Bytes) (old before new : CommunityRecord)
      → get s.communities k ≡ some old
      → get s.communities id ≡ some before
      → t.communities ≡ put s.communities id new
      → SameCommunity before new
      → Ownership env s before new
      → After env s t k old
  written-After env s t id k old before new h f w i o = elim (put_at s.communities id k new) [
    | inl (same, now) ↦
        let e : before ≡ old = some_injective (sym (rw same at f) ∙ h) in
        record { rec = new; found = rw w now; same_community = rw (← e) i; ownership = rw (← e) o }
    | inr (_, other) ↦ untouched-After env s t k old (rw w (other ∙ h))
  ]

  created-After :
      (env : Env) (s t : State) (id k : Bytes) (old new : CommunityRecord)
      → get s.communities k ≡ some old
      → get s.communities id ≡ none
      → t.communities ≡ put s.communities id new
      → After env s t k old
  created-After env s t id k old new h f w = elim (put_at s.communities id k new) [
    | inl (same, _) ↦ ground (arith, rw same at f)
    | inr (_, other) ↦ untouched-After env s t k old (rw w (other ∙ h))
  ]

  -- A call keeps the name, the transfer delay and the creation time of a community, and it keeps its
  -- owner, its pending owner and the time of the transfer too, unless the owner's own key signs a
  -- proposal, which sets that time to the delay from now, or a withdrawal, or else the time of a
  -- proposed transfer has come and the pending owner becomes the owner.
  pub owner_changes_only_by_transfer :
      (env : Env) (s t : State) (k : Bytes) (old : CommunityRecord)
      → Step env s t
      → get s.communities k ≡ some old
      → After env s t k old
  owner_changes_only_by_transfer env s t k old (sets_identity address e) h =
      untouched-After env s t k old
        (rw ((set_identity_contract-SameMaps env address s t e).communities) h)
  owner_changes_only_by_transfer env s t k old (creates args e) h =
      let x = create_community-NewCommunity env args s t e in
      created-After env s t x.id k old _ h x.new x.communities
  owner_changes_only_by_transfer env s t k old (sets_role args e) h =
      untouched-After env s t k old (rw ((set_role-RoleSet env args s t e).communities) h)
  owner_changes_only_by_transfer env s t k old (sets_policy community_id actor hash uri device e)
        h =
      let x = set_policy-PolicySet env community_id actor hash uri device s t e in
      written-After env s t x.id k old x.old _ h x.found x.communities
        (record { id = refl; name = refl; transfer_delay_ms = refl; created_at = refl })
        (kept refl refl refl)
  owner_changes_only_by_transfer env s t k old
        (sets_label community_id actor post label reason device e) h =
      untouched-After env s t k old (
        rw ((set_label-SameMaps env community_id actor post label reason device s t e).communities)
          h)
  owner_changes_only_by_transfer env s t k old (proposes community_id owner new_owner e) h =
      let x = propose_owner_transfer-Proposed env community_id owner new_owner s t e in
      written-After env s t x.id k old x.old _ h x.found x.communities
        (record { id = refl; name = refl; transfer_delay_ms = refl; created_at = refl })
        (proposed refl refl
          (record { signer = x.signer; by = rw ((equal_iff x.old.owner x.a).0 x.owned) x.signed }))
  owner_changes_only_by_transfer env s t k old (cancels community_id owner e) h =
      let x = cancel_owner_transfer-Cancelled env community_id owner s t e in
      written-After env s t x.id k old x.old _ h x.found x.communities
        (record { id = refl; name = refl; transfer_delay_ms = refl; created_at = refl })
        (withdrawn refl refl
          (record { signer = x.signer; by = rw ((equal_iff x.old.owner x.a).0 x.owned) x.signed }))
  owner_changes_only_by_transfer env s t k old (executes community_id e) h =
      let x = execute_owner_transfer-Transferred env community_id s t e in
      written-After env s t x.id k old x.old _ h x.found x.communities
        (record { id = refl; name = refl; transfer_delay_ms = refl; created_at = refl })
        (handed_over (some-value x.old.pending_owner x.waiting) refl
          (due x.old.transfer_effective_at env.now x.due))
