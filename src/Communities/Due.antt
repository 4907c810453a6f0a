-- ===== src/Communities/Due.antt =====
-- The transfer of a community is not stuck.
use open_social_protocol.Prelude.{◌≡◌, ◌≤◌, refl, false, none, some, [], ◌∷◌, length, arith}
use open_social_protocol.Chain.{Bytes, Sdk, Env, ok}
use open_social_protocol.Chain.Util.{is_empty, require_bytes}
use open_social_protocol.Communities.State.{CommunityRecord, State, owner_transferred, emit}
use open_social_protocol.Communities.Roles.{require_community_id, role_key}
use open_social_protocol.Communities.Methods.{get_community}
use open_social_protocol.Communities.Transfer.{execute_owner_transfer}

module _ ⦃sdk : Sdk⦄ where
  open sdk use {get, put, remove, equal, get-put, get-remove, equal_iff}

  -- What an executed transfer leaves: the new owner, with no pending transfer and no stored role.
  pub record HandedOver (env : Env) (id new_owner : Bytes) (s : State) : Type 0 where
    pub after : State
    pub executed : execute_owner_transfer env (some id) s ≡ ok after
    pub community : CommunityRecord
    pub found : get_community (some id) after ≡ some community
    pub owner : community.owner ≡ new_owner
    pub settled : community.pending_owner ≡ none
    pub no_role : get after.roles (role_key id new_owner) ≡ none

  -- Once the time of a proposed transfer has come, a call of `execute_owner_transfer` succeeds, whoever
  -- makes it: the proposed account is the owner of the community then.
  pub due_transfer_executes :
      (env : Env) (s : State) (id new_owner : Bytes) (c : CommunityRecord)
      → get_community (some id) s ≡ some c
      → length id ≤ 32
      → c.pending_owner ≡ some new_owner
      → is_empty (some new_owner) ≡ false
      → c.transfer_effective_at ≤ env.now
      → HandedOver env id new_owner s
  unfolding get_community execute_owner_transfer require_community_id require_bytes
  due_transfer_executes env s id new_owner c found short pending full time =
      let rec : CommunityRecord = record c {
        owner = new_owner;
        pending_owner = none;
        transfer_effective_at = 0;
        updated_at = env.now;
      } in
      let t : State =
        emit (owner_transferred id c.owner new_owner env.now) (c.owner ∷ new_owner ∷ []) (record s {
          communities = put s.communities id rec;
          roles = remove s.roles (role_key id new_owner);
        }) in
      record {
        after = t;
        executed = ground arith;
        community = rec;
        found = ground (arith, get-put s.communities id rec id, equal_iff id id);
        owner = refl;
        settled = refl;
        no_role = ground (
          arith,
          get-remove s.roles (role_key id new_owner) (role_key id new_owner),
          equal_iff (role_key id new_owner) (role_key id new_owner),
        );
      }
