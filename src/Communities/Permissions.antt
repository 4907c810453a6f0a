-- ===== src/Communities/Permissions.antt =====
-- What the rules of roles allow, and the owner's lack of a stored role.
use open_social_protocol.Prelude.{
  ℕ, ◌≡◌, ◌⊎◌, ◌∙◌, ◌≤◌, ◌<◌, inl, inr, refl, sym, true, false, Option, some, leb, length, arith,
  Option-cases,
}
use open_social_protocol.Chain.{Bytes, Sdk, Env, ok}
use open_social_protocol.Chain.Util.{value, require_bytes}
use open_social_protocol.Chain.Util.Require.{require_address-ok}
use open_social_protocol.Chain.Actor
use open_social_protocol.Chain.Actor.{require_authorized}
use open_social_protocol.Communities.State.{rank_admin, rank_owner, CommunityRecord, State, fresh}
use open_social_protocol.Communities.Roles.{
  identity_contract, require_community_id, role_key, rank, effective_role, effective_rank,
}
use open_social_protocol.Communities.Methods.{RoleArguments, check_admin, set_role}
use open_social_protocol.Communities.Calls.{set_role-RoleSet}
use open_social_protocol.Communities.Ownership.{Reach}
use open_social_protocol.Communities.Ranks.{put_role_elsewhere, Reach-Storable}

require_community_id-value :
    (v : Option Bytes) (id : Bytes) → require_community_id v ≡ ok id → id ≡ value v
unfolding require_community_id require_bytes
require_community_id-value v id h = ground arith

at_least : (m n : ℕ) → leb m n ≡ true → m ≤ n
at_least m n h = ground arith

module _ ⦃sdk : Sdk⦄ where
  open sdk use {get, equal, equal_iff, get-empty}

  -- Only the owner has the owner's rank.
  rank_of_owner :
      {s : State} (c : CommunityRecord) (a : Bytes) (now : ℕ)
      → Reach fresh s
      → (equal c.owner a ≡ true) ⊎ (effective_rank s c a now < rank_owner)
  unfolding effective_rank effective_role rank
  rank_of_owner {s = s} c a now r = elim (Option-cases (get s.roles (role_key c.id a))) [
    | inl unset ↦ ground arith
    | inr (rec, set) ↦
        let x = Reach-Storable (role_key c.id a) rec r set in
        ground (arith, x.in_range, x.not_owner)
  ]

  below_admin :
      (env : Env) (s : State) (c : CommunityRecord) (actor subject : Bytes) (role : ℕ)
      → check_admin env s c actor subject role ≡ ok tt
      → effective_rank s c actor env.now < rank_owner
      → (effective_rank s c subject env.now < rank_admin) × (rank role < rank_admin)
  unfolding check_admin
  below_admin env s c actor subject role h lower = ground arith

  -- The rules that a change of an account's role has met.
  pub record Permitted (env : Env) (args : RoleArguments) (s : State) : Type 0 where
    pub community : CommunityRecord
    pub found : get s.communities (value args.community_id) ≡ some community
    pub signer : Bytes
    pub signed :
        require_authorized env (identity_contract s) (value args.actor) args.device Actor.community
        ≡ ok signer
    pub not_owner : equal community.owner (value args.subject) ≡ false
    pub by_admin : rank_admin ≤ effective_rank s community (value args.actor) env.now
    pub by_owner_or_below :
        (community.owner ≡ value args.actor)
        ⊎ ((effective_rank s community (value args.subject) env.now < rank_admin)
            × (rank args.role < rank_admin))

  role_elsewhere :
      (env : Env) (args : RoleArguments) (s t : State) (c : CommunityRecord) (a : Bytes) (now : ℕ)
      → length a ≡ 25
      → set_role env args s ≡ ok t
      → ((c.id ≡ value args.community_id) × (a ≡ value args.subject))
        ⊎ (effective_role t c a now ≡ effective_role s c a now)
  unfolding effective_role
  role_elsewhere env args s t c a now l h =
      let x = set_role-RoleSet env args s t h in
      let (subject_is, subject_length) =
        require_address-ok args.subject "subject" x.subject x.about in
      elim (put_role_elsewhere s.roles x.id x.subject c.id a
        (record {
          role = args.role;
          scope = x.scope;
          expires_at = args.expires_at;
          granted_by = x.actor;
          granted_at = env.now;
        })
        (subject_length ∙ sym l)) [
          | inl (id, same) ↦ inl (
            sym id ∙ require_community_id-value args.community_id x.id x.of,
            sym same ∙ subject_is,
          )
          | inr other ↦ inr (rw (x.roles, other) refl)
        ]

  -- After any history of calls on a new contract, a role is set only by an admin or the owner of the
  -- community, for whom identity has named a signer with the community capability who has authorized the
  -- call, never the owner's, and if it is not the owner who sets it, only for an account below
  -- admin and to a role below admin; and every other account, and every account in another community,
  -- has the role that it had, at any time.
  pub set_role_keeps_ranks :
      (env : Env) (args : RoleArguments) (s t : State) (c : CommunityRecord) (a : Bytes) (now : ℕ)
      → Reach fresh s
      → length a ≡ 25
      → set_role env args s ≡ ok t
      → Permitted env args s
        × (((c.id ≡ value args.community_id) × (a ≡ value args.subject))
            ⊎ (effective_role t c a now ≡ effective_role s c a now))
  set_role_keeps_ranks env args s t c a now r l h =
      let x = set_role-RoleSet env args s t h in
      let id_is = require_community_id-value args.community_id x.id x.of in
      let (actor_is, _) = require_address-ok args.actor "actor" x.actor x.by in
      let (subject_is, _) = require_address-ok args.subject "subject" x.subject x.about in
      (
        record {
          community = x.community;
          found = rw (← id_is) x.found;
          signer = x.signer;
          signed = rw (← actor_is) x.signed;
          not_owner = rw (← subject_is) x.not_owner;
          by_admin = rw (← actor_is) (at_least rank_admin _ x.high);
          by_owner_or_below = elim (rank_of_owner x.community x.actor env.now r) [
            | inl own ↦ inl ((equal_iff x.community.owner x.actor).0 own ∙ actor_is)
            | inr lower ↦ inr (
                rw (← subject_is)
                  (below_admin env s x.community x.actor x.subject args.role x.admin lower))
          ];
        },
        role_elsewhere env args s t c a now l h,
      )
