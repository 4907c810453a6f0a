-- ===== src/Communities/Calls.antt =====
-- What a successful call of each method has found, and what it writes.
use open_social_protocol.Prelude.{◌≡◌, true, false, Option, none, some, ◌==◌, leb, arith}
use open_social_protocol.Chain.{Bytes, Text, Sdk, Env, ok, add64}
use open_social_protocol.Chain.Util.{is_empty, value, require_address, require_string}
use open_social_protocol.Chain.Actor
use open_social_protocol.Chain.Actor.{require_authorized}
use open_social_protocol.Communities.State.{
  name_max_length, rank_admin, role_owner, role_max_value, CommunityRecord, State,
}
use open_social_protocol.Communities.Roles.{
  role_key, optional_policy_hash, optional_policy_uri, optional_scope, require_community_id,
  set_identity_contract, identity_contract, effective_rank,
}
use open_social_protocol.Communities.Methods.{
  CreateArguments, RoleArguments, create_community, check_admin, put_role, set_role, set_policy,
  set_label,
}
use open_social_protocol.Communities.Transfer.{
  propose_owner_transfer, cancel_owner_transfer, execute_owner_transfer,
}

module _ ⦃sdk : Sdk⦄ where
  open sdk use {get, put, remove, equal}

  pub record SameMaps (s t : State) : Type 0 where
    pub communities : t.communities ≡ s.communities
    pub roles : t.roles ≡ s.roles

  pub set_identity_contract-SameMaps :
      (env : Env) (address : Option Bytes) (s t : State)
      → set_identity_contract env address s ≡ ok t
      → SameMaps s t
  unfolding set_identity_contract
  set_identity_contract-SameMaps env address s t h = ground arith

  pub set_label-SameMaps :
      (env : Env) (community_id actor post : Option Bytes) (label reason : Option Text)
      (device : Option Bytes) (s t : State)
      → set_label env community_id actor post label reason device s ≡ ok t
      → SameMaps s t
  unfolding set_label
  set_label-SameMaps env community_id actor post label reason device s t h = ground arith

  pub record NewCommunity (env : Env) (args : CreateArguments) (s t : State) : Type 0 where
    pub creator : Bytes
    pub id : Bytes
    pub name : Text
    pub policy_hash : Option Bytes
    pub policy_uri : Option Text
    pub from : require_address args.creator "creator" ≡ ok creator
    pub of : require_community_id args.id ≡ ok id
    pub name_is : require_string args.name name_max_length "name" ≡ ok name
    pub hash_is : optional_policy_hash args.policy_hash ≡ ok policy_hash
    pub uri_is : optional_policy_uri args.policy_uri ≡ ok policy_uri
    pub new : get s.communities id ≡ none
    pub communities :
        t.communities
        ≡ put s.communities id (record {
          id = id;
          owner = creator;
          name = name;
          policy_hash = policy_hash;
          policy_uri = policy_uri;
          transfer_delay_ms = args.transfer_delay_ms;
          pending_owner = none;
          transfer_effective_at = 0;
          created_at = env.now;
          updated_at = env.now;
        })
    pub roles : t.roles ≡ s.roles

  pub create_community-NewCommunity :
      (env : Env) (args : CreateArguments) (s t : State)
      → create_community env args s ≡ ok t
      → NewCommunity env args s t
  unfolding create_community
  create_community-NewCommunity env args s t h = ground arith

  pub record RoleSet (env : Env) (args : RoleArguments) (s t : State) : Type 0 where
    pub id : Bytes
    pub actor : Bytes
    pub subject : Bytes
    pub scope : Option Bytes
    pub community : CommunityRecord
    pub of : require_community_id args.community_id ≡ ok id
    pub by : require_address args.actor "actor" ≡ ok actor
    pub scope_is : optional_scope args.scope ≡ ok scope
    pub about : require_address args.subject "subject" ≡ ok subject
    pub signer : Bytes
    pub signed :
        require_authorized env (identity_contract s) actor args.device Actor.community ≡ ok signer
    pub found : get s.communities id ≡ some community
    pub in_range : leb args.role role_max_value ≡ true
    pub high : leb rank_admin (effective_rank s community actor env.now) ≡ true
    pub not_owner : equal community.owner subject ≡ false
    pub not_ownership : (args.role == role_owner) ≡ false
    pub admin : check_admin env s community actor subject args.role ≡ ok tt
    pub communities : t.communities ≡ s.communities
    pub roles :
        t.roles
        ≡ put_role s.roles (role_key id subject) (record {
          role = args.role;
          scope = scope;
          expires_at = args.expires_at;
          granted_by = actor;
          granted_at = env.now;
        })

  pub set_role-RoleSet :
      (env : Env) (args : RoleArguments) (s t : State)
      → set_role env args s ≡ ok t
      → RoleSet env args s t
  unfolding set_role
  set_role-RoleSet env args s t h = ground arith

  pub record PolicySet (env : Env) (community_id actor policy_hash : Option Bytes)
      (policy_uri : Option Text) (s t : State) : Type 0 where
    pub id : Bytes
    pub account : Bytes
    pub hash : Option Bytes
    pub uri : Option Text
    pub old : CommunityRecord
    pub of : require_community_id community_id ≡ ok id
    pub by : require_address actor "actor" ≡ ok account
    pub hash_is : optional_policy_hash policy_hash ≡ ok hash
    pub uri_is : optional_policy_uri policy_uri ≡ ok uri
    pub found : get s.communities id ≡ some old
    pub high : leb rank_admin (effective_rank s old account env.now) ≡ true
    pub communities :
        t.communities
        ≡ put s.communities id
            (record old { policy_hash = hash; policy_uri = uri; updated_at = env.now })
    pub roles : t.roles ≡ s.roles

  pub set_policy-PolicySet :
      (env : Env) (community_id actor hash : Option Bytes) (uri : Option Text)
      (device : Option Bytes) (s t : State)
      → set_policy env community_id actor hash uri device s ≡ ok t
      → PolicySet env community_id actor hash uri s t
  unfolding set_policy
  set_policy-PolicySet env community_id actor hash uri device s t h = ground arith

  pub record Proposed (env : Env) (community_id owner new_owner : Option Bytes) (s t : State)
      : Type 0 where
    pub id : Bytes
    pub a : Bytes
    pub b : Bytes
    pub old : CommunityRecord
    pub signer : Bytes
    pub of : require_community_id community_id ≡ ok id
    pub from : require_address owner "owner" ≡ ok a
    pub to : require_address new_owner "new_owner" ≡ ok b
    pub distinct : equal a b ≡ false
    pub found : get s.communities id ≡ some old
    pub owned : equal old.owner a ≡ true
    pub signed : require_authorized env (identity_contract s) a none 0 ≡ ok signer
    pub communities :
        t.communities
        ≡ put s.communities id (record old {
          pending_owner = some b;
          transfer_effective_at = add64 env.now old.transfer_delay_ms;
          updated_at = env.now;
        })
    pub roles : t.roles ≡ s.roles

  pub propose_owner_transfer-Proposed :
      (env : Env) (community_id owner new_owner : Option Bytes) (s t : State)
      → propose_owner_transfer env community_id owner new_owner s ≡ ok t
      → Proposed env community_id owner new_owner s t
  unfolding propose_owner_transfer
  propose_owner_transfer-Proposed env community_id owner new_owner s t h = ground arith

  pub record Cancelled (env : Env) (community_id owner : Option Bytes) (s t : State) : Type 0 where
    pub id : Bytes
    pub a : Bytes
    pub old : CommunityRecord
    pub signer : Bytes
    pub of : require_community_id community_id ≡ ok id
    pub from : require_address owner "owner" ≡ ok a
    pub found : get s.communities id ≡ some old
    pub owned : equal old.owner a ≡ true
    pub signed : require_authorized env (identity_contract s) a none 0 ≡ ok signer
    pub communities :
        t.communities
        ≡ put s.communities id
            (record old { pending_owner = none; transfer_effective_at = 0; updated_at = env.now })
    pub roles : t.roles ≡ s.roles

  pub cancel_owner_transfer-Cancelled :
      (env : Env) (community_id owner : Option Bytes) (s t : State)
      → cancel_owner_transfer env community_id owner s ≡ ok t
      → Cancelled env community_id owner s t
  unfolding cancel_owner_transfer
  cancel_owner_transfer-Cancelled env community_id owner s t h = ground arith

  pub record Transferred (env : Env) (community_id : Option Bytes) (s t : State) : Type 0 where
    pub id : Bytes
    pub old : CommunityRecord
    pub of : require_community_id community_id ≡ ok id
    pub found : get s.communities id ≡ some old
    pub waiting : is_empty old.pending_owner ≡ false
    pub due : leb old.transfer_effective_at env.now ≡ true
    pub communities :
        t.communities
        ≡ put s.communities id (record old {
          owner = value old.pending_owner;
          pending_owner = none;
          transfer_effective_at = 0;
          updated_at = env.now;
        })
    pub roles : t.roles ≡ remove s.roles (role_key id (value old.pending_owner))

  pub execute_owner_transfer-Transferred :
      (env : Env) (community_id : Option Bytes) (s t : State)
      → execute_owner_transfer env community_id s ≡ ok t
      → Transferred env community_id s t
  unfolding execute_owner_transfer
  execute_owner_transfer-Transferred env community_id s t h = ground arith
