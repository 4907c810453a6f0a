-- ===== src/Communities/Transfer.antt =====
-- The transfer of a community to another owner, after its delay.
use open_social_protocol.Prelude.{Option, none, some, [], ◌∷◌, not, leb}
use open_social_protocol.Chain.{Bytes, Sdk, Env, Result, ok, ◌>>=◌, ◌>>◌, require, add64}
use open_social_protocol.Chain.Util.{is_empty, value, require_address}
use open_social_protocol.Chain.Actor.{require_authorized}
use open_social_protocol.Communities.State.{
  CommunityRecord, owner_transfer_proposed, owner_transfer_cancelled, owner_transferred, State,
  emit,
}
use open_social_protocol.Communities.Roles.{
  role_key, require_community_id, identity_contract, require_community,
}

module _ ⦃sdk : Sdk⦄ where
  open sdk use {get, put, remove, equal}

  -- Communities.propose_owner_transfer
  unfoldable pub propose_owner_transfer :
      Env → Option Bytes → Option Bytes → Option Bytes → State → Result State
  propose_owner_transfer env community_id owner new_owner s = do
    id ← require_community_id community_id
    a ← require_address owner "owner"
    b ← require_address new_owner "new_owner"
    require (not (equal a b)) "new_owner must differ from owner"
    community ← require_community s id
    require (equal community.owner a) "only the owner may propose a transfer"
    signer ← require_authorized env (identity_contract s) a none 0
    let effective_at = add64 env.now community.transfer_delay_ms
    let rec : CommunityRecord = record community {
      pending_owner = some b;
      transfer_effective_at = effective_at;
      updated_at = env.now;
    }
    ok (
        emit (owner_transfer_proposed id a b effective_at) (a ∷ b ∷ [])
          (record s { communities = put s.communities id rec }))

  -- Communities.cancel_owner_transfer
  unfoldable pub cancel_owner_transfer : Env → Option Bytes → Option Bytes → State → Result State
  cancel_owner_transfer env community_id owner s = do
    id ← require_community_id community_id
    a ← require_address owner "owner"
    community ← require_community s id
    require (equal community.owner a) "only the owner may cancel a transfer"
    signer ← require_authorized env (identity_contract s) a none 0
    require (not (is_empty community.pending_owner)) "no pending transfer"
    let rec : CommunityRecord = record community {
      pending_owner = none;
      transfer_effective_at = 0;
      updated_at = env.now;
    }
    ok (
        emit (owner_transfer_cancelled id env.now) (a ∷ value community.pending_owner ∷ [])
          (record s { communities = put s.communities id rec }))

  -- Communities.execute_owner_transfer
  unfoldable pub execute_owner_transfer : Env → Option Bytes → State → Result State
  execute_owner_transfer env community_id s = do
    id ← require_community_id community_id
    community ← require_community s id
    require (not (is_empty community.pending_owner)) "no pending transfer"
    require (leb community.transfer_effective_at env.now) "transfer delay not elapsed"
    let new_owner = value community.pending_owner
    let rec : CommunityRecord = record community {
      owner = new_owner;
      pending_owner = none;
      transfer_effective_at = 0;
      updated_at = env.now;
    }
    ok (
        emit (owner_transferred id community.owner new_owner env.now)
          (community.owner ∷ new_owner ∷ [])
          (record s {
            communities = put s.communities id rec;
            roles = remove s.roles (role_key id new_owner);
          }))
