-- ===== src/Communities/Roles.antt =====
-- The checks that the methods share, and the roles that accounts have.
use open_social_protocol.Prelude.{
  ℕ, Bool, Option, none, some, [], ◌∷◌, ◌&&◌, ◌||◌, ◌==◌, not, leb, length, if◌then◌else◌,
}
use open_social_protocol.Chain.{
  Bytes, Text, Sdk, Env, Result, ok, ◌>>=◌, ◌>>◌, require, require_some,
}
use open_social_protocol.Chain.Util.{
  concat, is_empty, value, require_address, require_bytes, require_string,
}
use open_social_protocol.Communities.State.{
  id_max_length, policy_hash_length, policy_uri_max_length, scope_max_length, rank_none, role_none,
  role_owner, role_banned, CommunityRecord, RoleRecord, State,
}

-- Communities.roleKey
abbrev pub role_key : Bytes → Bytes → Bytes
role_key community_id subject = concat (community_id ∷ subject ∷ [])

-- Communities.rank
unfoldable pub rank : ℕ → ℕ
rank role = if (role == role_banned) || (role == role_none) then rank_none else role

-- Communities.requireCommunityId
unfoldable pub require_community_id : Option Bytes → Result Bytes
require_community_id v = require_bytes v id_max_length "community id"

-- Communities.optionalPolicyHash
unfoldable pub optional_policy_hash : Option Bytes → Result (Option Bytes)
optional_policy_hash v =
    if is_empty v
    then ok none
    else require (length (value v) == policy_hash_length) "policy_hash must be empty or 32 bytes"
      >> ok v

abbrev pub some_text : Text → Option Text
some_text [] = none
some_text (c ∷ s) = some (c ∷ s)

-- Communities.optionalPolicyUri
unfoldable pub optional_policy_uri : Option Text → Result (Option Text)
optional_policy_uri v = do s ← require_string v policy_uri_max_length "policy_uri"; ok (some_text s)

-- Communities.optionalScope
unfoldable pub optional_scope : Option Bytes → Result (Option Bytes)
optional_scope v =
    if is_empty v
    then ok none
    else require (leb (length (value v)) scope_max_length) "scope too large" >> ok v

-- A role counts until it expires; 0 is never.
abbrev pub expired : RoleRecord → ℕ → Bool
expired rec now = not (rec.expires_at == 0) && leb rec.expires_at now

abbrev pub role_at : Option RoleRecord → ℕ → ℕ
role_at none now = role_none
role_at (some rec) now = if expired rec now then role_none else rec.role

module _ ⦃sdk : Sdk⦄ where
  open sdk use {get, equal}

  -- Communities.set_identity_contract
  unfoldable pub set_identity_contract : Env → Option Bytes → State → Result State
  set_identity_contract env address s = do
    require (env.authorized env.contract_id) "authorization failed"
    a ← require_address address "address"
    ok (record s { config = some a })

  -- Communities.identityContract: empty bytes when it is unset.
  unfoldable pub identity_contract : State → Bytes
  identity_contract s = if is_empty s.config then [] else value s.config

  -- Communities.requireCommunity
  abbrev pub require_community : State → Bytes → Result CommunityRecord
  require_community s id = require_some (get s.communities id) "community not found"

  -- Communities.effectiveRole
  unfoldable pub effective_role : State → CommunityRecord → Bytes → ℕ → ℕ
  effective_role s community account now =
      if equal community.owner account
      then role_owner
      else role_at (get s.roles (role_key community.id account)) now

  -- Communities.effectiveRank
  unfoldable pub effective_rank : State → CommunityRecord → Bytes → ℕ → ℕ
  effective_rank s community account now = rank (effective_role s community account now)
