-- ===== src/Communities/Owners.antt =====
-- The owner of a community has no stored role, which its role as owner would hide.
use open_social_protocol.Prelude.{
  ◌≡◌, ◌≢◌, ◌∙◌, inl, inr, refl, sym, true, false, none, some, length, arith, Bool-cases,
}
use open_social_protocol.Chain.{Bytes, Sdk}
use open_social_protocol.Chain.Util.{value}
use open_social_protocol.Chain.Util.Require.{require_address-ok}
use open_social_protocol.Chain.Lookup.{put_at, remove_at, some_injective}
use open_social_protocol.Communities.State.{CommunityRecord, RoleRecord, State, fresh}
use open_social_protocol.Communities.Roles.{role_key}
use open_social_protocol.Communities.Calls.{
  set_identity_contract-SameMaps, set_label-SameMaps, create_community-NewCommunity,
  set_role-RoleSet, set_policy-PolicySet, propose_owner_transfer-Proposed,
  cancel_owner_transfer-Cancelled, execute_owner_transfer-Transferred,
}
use open_social_protocol.Communities.Ownership.{
  sets_identity, creates, sets_role, sets_policy, sets_label, proposes, cancels, executes, Reach,
  here, next,
}
use open_social_protocol.Communities.Ranks.{put_role_elsewhere}

module _ ⦃sdk : Sdk⦄ where
  open sdk use {get, put, remove, equal, equal_iff, get-empty}

  -- The community exists, and another account owns it.
  pub record Ruled (s : State) (id a : Bytes) : Type 0 where
    pub community : CommunityRecord
    pub found : get s.communities id ≡ some community
    pub other : equal community.owner a ≡ false

  -- A write of a community keeps that, where it keeps the owner.
  kept-Ruled :
      (s t : State) (id k a : Bytes) (old new : CommunityRecord)
      → get s.communities id ≡ some old
      → new.owner ≡ old.owner
      → t.communities ≡ put s.communities id new
      → Ruled s k a
      → Ruled t k a
  kept-Ruled s t id k a old new f o w v = elim (put_at s.communities id k new) [
    | inl (same, now) ↦
        let e : old ≡ v.community = some_injective (sym (rw same at f) ∙ v.found) in
        record { community = new; found = rw w now; other = rw (o, e) v.other }
    | inr (_, other) ↦ record {
      community = v.community;
      found = rw w (other ∙ v.found);
      other = v.other;
    }
  ]

  new-Ruled :
      (s t : State) (id k a : Bytes) (new : CommunityRecord)
      → get s.communities id ≡ none
      → t.communities ≡ put s.communities id new
      → Ruled s k a
      → Ruled t k a
  new-Ruled s t id k a new f w v = elim (put_at s.communities id k new) [
    | inl (same, _) ↦ ground (arith, rw same at f, v.found)
    | inr (_, other) ↦ record {
      community = v.community;
      found = rw w (other ∙ v.found);
      other = v.other;
    }
  ]

  same-Ruled :
      (s t : State) (k a : Bytes) → t.communities ≡ s.communities → Ruled s k a → Ruled t k a
  same-Ruled s t k a w v = record { community = v.community; found = rw w v.found; other = v.other }

  removed_get :
      (m : sdk.Map RoleRecord) (j k : Bytes) (rec : RoleRecord)
      → get (remove m j) k ≡ some rec
      → get m k ≡ some rec
  removed_get m j k rec h = elim (remove_at m j k) [
    | inl (_, gone) ↦ ground (arith, h, gone)
    | inr (_, other) ↦ sym other ∙ h
  ]

  false_is_not-true : false ≢ true
  false_is_not-true e = ground arith

  -- A transfer drops the role of the account that owns the community from then on.
  transferred-Ruled :
      (s t : State) (id k a b : Bytes) (new : CommunityRecord) (rec : RoleRecord)
      → new.owner ≡ b
      → t.communities ≡ put s.communities id new
      → get (remove s.roles (role_key id b)) (role_key k a) ≡ some rec
      → Ruled s k a
      → Ruled t k a
  transferred-Ruled s t id k a b new rec o w h v = elim (put_at s.communities id k new) [
    | inl (same, now) ↦ record {
      community = new;
      found = rw w now;
      other = elim (Bool-cases (equal new.owner a)) [
        | inl own ↦ elim (remove_at s.roles (role_key id b) (role_key k a)) [
          | inl (_, gone) ↦ ground (arith, h, gone)
          | inr (no_key, _) ↦
              let e : b ≡ a = sym o ∙ (equal_iff new.owner a).0 own in
              absurd (false_is_not-true (sym no_key ∙ (equal_iff _ _).1 (rw (same, e) refl)))
        ]
        | inr other ↦ other
      ];
    }
    | inr (_, other) ↦ record {
      community = v.community;
      found = rw w (other ∙ v.found);
      other = v.other;
    }
  ]

  -- After any history of calls on a new contract, an account that has a stored role in a community is
  -- not the owner of the community, which exists.
  pub stored_role_is_not_owner :
      {s : State} (id a : Bytes) (rec : RoleRecord)
      → length a ≡ 25
      → Reach fresh s
      → get s.roles (role_key id a) ≡ some rec
      → Ruled s id a
  stored_role_is_not_owner id a rec l here h =
      ground (arith, get-empty {V = RoleRecord} (role_key id a))
  stored_role_is_not_owner id a rec l (next {t = s} {u = t} env r (sets_identity address e)) h =
      let x = set_identity_contract-SameMaps env address s t e in
      same-Ruled s t id a x.communities (stored_role_is_not_owner id a rec l r (rw x.roles at h))
  stored_role_is_not_owner id a rec l (next {t = s} {u = t} env r (creates args e)) h =
      let x = create_community-NewCommunity env args s t e in
      new-Ruled s t x.id id a _ x.new x.communities
        (stored_role_is_not_owner id a rec l r (rw x.roles at h))
  stored_role_is_not_owner id a rec l (next {t = s} {u = t} env r (sets_role args e)) h =
      let x = set_role-RoleSet env args s t e in
      let (_, subject_length) = require_address-ok args.subject "subject" x.subject x.about in
      same-Ruled s t id a x.communities
        (elim (put_role_elsewhere s.roles x.id x.subject id a
          (record {
            role = args.role;
            scope = x.scope;
            expires_at = args.expires_at;
            granted_by = x.actor;
            granted_at = env.now;
          })
          (subject_length ∙ sym l)) [
            | inl (same, this) ↦ record {
              community = x.community;
              found = rw same at x.found;
              other = rw this at x.not_owner;
            }
            | inr other ↦ stored_role_is_not_owner id a rec l r (sym other ∙ (rw x.roles at h))
          ])
  stored_role_is_not_owner id a rec l
        (next {t = s} {u = t} env r (sets_policy community_id actor hash uri device e)) h =
      let x = set_policy-PolicySet env community_id actor hash uri device s t e in
      kept-Ruled s t x.id id a x.old _ x.found refl x.communities
        (stored_role_is_not_owner id a rec l r (rw x.roles at h))
  stored_role_is_not_owner id a rec l
        (next {t = s} {u = t} env r (sets_label community_id actor post label reason device e)) h =
      let x = set_label-SameMaps env community_id actor post label reason device s t e in
      same-Ruled s t id a x.communities (stored_role_is_not_owner id a rec l r (rw x.roles at h))
  stored_role_is_not_owner id a rec l
        (next {t = s} {u = t} env r (proposes community_id owner new_owner e)) h =
      let x = propose_owner_transfer-Proposed env community_id owner new_owner s t e in
      kept-Ruled s t x.id id a x.old _ x.found refl x.communities
        (stored_role_is_not_owner id a rec l r (rw x.roles at h))
  stored_role_is_not_owner id a rec l (next {t = s} {u = t} env r (cancels community_id owner e))
        h =
      let x = cancel_owner_transfer-Cancelled env community_id owner s t e in
      kept-Ruled s t x.id id a x.old _ x.found refl x.communities
        (stored_role_is_not_owner id a rec l r (rw x.roles at h))
  stored_role_is_not_owner id a rec l (next {t = s} {u = t} env r (executes community_id e)) h =
      let x = execute_owner_transfer-Transferred env community_id s t e in
      transferred-Ruled s t x.id id a (value x.old.pending_owner) _ rec refl x.communities
        (rw x.roles at h)
        (stored_role_is_not_owner id a rec l r (
          removed_get s.roles (role_key x.id (value x.old.pending_owner)) (role_key id a) rec
            (rw x.roles at h)))
