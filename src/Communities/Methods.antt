-- ===== src/Communities/Methods.antt =====
-- The methods on communities, roles, policies and labels, and the reads.
use open_social_protocol.Prelude.{
  ℕ, Option, none, some, [], ◌∷◌, ◌||◌, ◌==◌, not, leb, ltb, length, if◌then◌else◌,
}
use open_social_protocol.Chain.{Bytes, Text, Sdk, Env, Result, ok, reverted, ◌>>=◌, ◌>>◌, require}
use open_social_protocol.Chain.Util.{
  is_empty, value, require_address, require_bytes, require_string,
}
use open_social_protocol.Chain.Actor
use open_social_protocol.Chain.Actor.{require_authorized}
use open_social_protocol.Communities.State.{
  name_max_length, post_id_length, label_max_length, reason_max_length, transfer_delay_max_ms,
  rank_moderator, rank_admin, rank_owner, role_max_value, role_none, role_owner, CommunityRecord,
  RoleRecord, community_created, role_set, policy_set, label_set, State, emit,
}
use open_social_protocol.Communities.Roles.{
  role_key, rank, require_community_id, optional_policy_hash, optional_policy_uri, optional_scope,
  some_text, identity_contract, require_community, effective_rank,
}

-- communities.create_community_arguments
pub record CreateArguments : Type 0 where
  pub creator : Option Bytes
  pub id : Option Bytes
  pub name : Option Text
  pub policy_hash : Option Bytes
  pub policy_uri : Option Text
  pub transfer_delay_ms : ℕ

-- communities.set_role_arguments
pub record RoleArguments : Type 0 where
  pub community_id : Option Bytes
  pub actor : Option Bytes
  pub subject : Option Bytes
  pub role : ℕ
  pub scope : Option Bytes
  pub expires_at : ℕ
  pub device : Option Bytes

module _ ⦃sdk : Sdk⦄ where
  open sdk use {get, put, remove, equal}

  abbrev pub is_free : Option CommunityRecord → Result (Unit {0})
  is_free none = ok tt
  is_free (some rec) = reverted "community id already exists"

  -- Communities.create_community
  unfoldable pub create_community : Env → CreateArguments → State → Result State
  create_community env args s = do
    creator ← require_address args.creator "creator"
    id ← require_community_id args.id
    name ← require_string args.name name_max_length "name"
    require (ltb 0 (length name)) "name is required"
    policy_hash ← optional_policy_hash args.policy_hash
    policy_uri ← optional_policy_uri args.policy_uri
    require (leb args.transfer_delay_ms transfer_delay_max_ms) "transfer_delay_ms too large"
    signer ← require_authorized env (identity_contract s) creator none 0
    is_free (get s.communities id)
    let rec : CommunityRecord = record {
      id = id;
      owner = creator;
      name = name;
      policy_hash = policy_hash;
      policy_uri = policy_uri;
      transfer_delay_ms = args.transfer_delay_ms;
      pending_owner = none;
      transfer_effective_at = 0;
      created_at = env.now;
      updated_at = env.now;
    }
    ok (
        emit
          (community_created id creator name policy_hash policy_uri args.transfer_delay_ms env.now)
          (creator ∷ []) (record s { communities = put s.communities id rec }))

  -- Admins only manage roles strictly below admin, for subjects below admin.
  unfoldable pub check_admin : Env → State → CommunityRecord → Bytes → Bytes → ℕ → Result (Unit {0})
  check_admin env s community actor subject role =
      if ltb (effective_rank s community actor env.now) rank_owner
      then require (ltb (rank role) rank_admin) "admin may only set roles below admin"
        >> require (ltb (effective_rank s community subject env.now) rank_admin)
            "admin cannot change an admin's role"
      else ok tt

  -- The roles with another one at a key, or none.
  abbrev pub put_role : sdk.Map RoleRecord → Bytes → RoleRecord → sdk.Map RoleRecord
  put_role m key rec = if rec.role == role_none then remove m key else put m key rec

  -- Communities.set_role
  unfoldable pub set_role : Env → RoleArguments → State → Result State
  set_role env args s = do
    id ← require_community_id args.community_id
    actor ← require_address args.actor "actor"
    subject ← require_address args.subject "subject"
    require (leb args.role role_max_value) "invalid role"
    scope ← optional_scope args.scope
    require ((args.expires_at == 0) || ltb env.now args.expires_at)
        "expires_at must be 0 or in the future"
    community ← require_community s id
    signer ← require_authorized env (identity_contract s) actor args.device Actor.community
    require (leb rank_admin (effective_rank s community actor env.now)) "insufficient role"
    require (not (equal community.owner subject)) "cannot change owner role"
    require (not (args.role == role_owner)) "use ownership transfer"
    check_admin env s community actor subject args.role
    let rec : RoleRecord = record {
      role = args.role;
      scope = scope;
      expires_at = args.expires_at;
      granted_by = actor;
      granted_at = env.now;
    }
    ok (
        emit (role_set id actor subject args.role scope args.expires_at env.now)
          (actor ∷ subject ∷ []) (record s { roles = put_role s.roles (role_key id subject) rec }))

  -- Communities.set_policy: the community, the actor, the hash, the URI and the device.
  unfoldable pub set_policy :
      Env
      → Option Bytes
      → Option Bytes
      → Option Bytes
      → Option Text
      → Option Bytes
      → State
      → Result State
  set_policy env community_id actor hash uri device s = do
    id ← require_community_id community_id
    a ← require_address actor "actor"
    policy_hash ← optional_policy_hash hash
    policy_uri ← optional_policy_uri uri
    community ← require_community s id
    signer ← require_authorized env (identity_contract s) a device Actor.community
    require (leb rank_admin (effective_rank s community a env.now)) "insufficient role"
    let rec : CommunityRecord = record community {
      policy_hash = policy_hash;
      policy_uri = policy_uri;
      updated_at = env.now;
    }
    ok (
        emit (policy_set id a policy_hash policy_uri env.now) (a ∷ [])
          (record s { communities = put s.communities id rec }))

  -- Communities.set_label: the community, the actor, the post, the label, the reason and the device.
  unfoldable pub set_label :
      Env
      → Option Bytes
      → Option Bytes
      → Option Bytes
      → Option Text
      → Option Text
      → Option Bytes
      → State
      → Result State
  set_label env community_id actor post_id label reason device s = do
    id ← require_community_id community_id
    a ← require_address actor "actor"
    post ← require_bytes post_id post_id_length "post_id"
    require (length post == post_id_length) "post_id must be 32 bytes"
    text ← require_string label label_max_length "label"
    require (ltb 0 (length text)) "label is required"
    why ← require_string reason reason_max_length "reason"
    community ← require_community s id
    signer ← require_authorized env (identity_contract s) a device Actor.community
    require (leb rank_moderator (effective_rank s community a env.now)) "insufficient role"
    ok (emit (label_set id a post text (some_text why) env.now) (a ∷ []) s)

  -- Communities.get_community
  unfoldable pub get_community : Option Bytes → State → Option CommunityRecord
  get_community id s = if is_empty id then none else get s.communities (value id)

  -- Communities.get_role
  unfoldable pub get_role : Option Bytes → Option Bytes → State → Option RoleRecord
  get_role community_id subject s =
      if is_empty community_id || is_empty subject
      then none
      else get s.roles (role_key (value community_id) (value subject))

  -- Communities.get_identity_contract
  unfoldable pub get_identity_contract : State → Option Bytes
  get_identity_contract s = s.config
