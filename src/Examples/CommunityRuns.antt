-- ===== src/Examples/CommunityRuns.antt =====
-- The communities contract on concrete inputs.
use open_social_protocol.Prelude.{◌≡◌, ◌⊎◌, ◌≤◌, refl, some, none, [], ◌∷◌, Option, arith}
use open_social_protocol.Chain.{Bytes, ok}
use open_social_protocol.Chain.Util.{is_empty, require_string, require_bytes, require_address}
use open_social_protocol.Communities.State.{State, fresh, CommunityRecord, RoleRecord}
use open_social_protocol.Communities.Roles.{
  rank, effective_rank, optional_scope, identity_contract, optional_policy_uri,
  optional_policy_hash, require_community_id, role_key, set_identity_contract, effective_role,
}
use open_social_protocol.Communities.Methods.{
  check_admin, check_admin, CreateArguments, RoleArguments, create_community, set_role,
  get_community,
}
use open_social_protocol.Communities.Transfer.{propose_owner_transfer}
use open_social_protocol.Communities.Ownership.{
  Step, Reach, here, next, After, owner_changes_only_by_transfer,
}
use open_social_protocol.Communities.Permissions.{Permitted, set_role_keeps_ranks}
use open_social_protocol.Communities.Owners.{Ruled, stored_role_is_not_owner}
use open_social_protocol.Communities.Due.{HandedOver, due_transfer_executes}
use open_social_protocol.Chain.Actor.{require_authorized}
use open_social_protocol.Examples.Mock.{mock, ledger, address, chain_at, after}

abbrev id : Bytes
id = 7 ∷ 8 ∷ []

abbrev configured : State
configured = after fresh (set_identity_contract (chain_at 1) (some (address 3)) fresh)

configured-ok : set_identity_contract (chain_at 1) (some (address 3)) fresh ≡ ok configured
unfolding set_identity_contract require_address
configured-ok = refl

abbrev create_args : CreateArguments
create_args = record {
  creator = some (address 1);
  id = some id;
  name = some (65 ∷ []);
  policy_hash = none;
  policy_uri = none;
  transfer_delay_ms = 10;
}

abbrev founded : State
founded = after configured (create_community (chain_at 2) create_args configured)

founded-ok : create_community (chain_at 2) create_args configured ≡ ok founded
unfolding create_community require_address require_community_id require_bytes require_string
    optional_policy_hash optional_policy_uri require_authorized identity_contract
    set_identity_contract
founded-ok = refl

abbrev role_args : RoleArguments
role_args = record {
  community_id = some id;
  actor = some (address 1);
  subject = some (address 2);
  role = 4;
  scope = none;
  expires_at = 0;
  device = none;
}

abbrev staffed : State
staffed = after founded (set_role (chain_at 3) role_args founded)

staffed-ok : set_role (chain_at 3) role_args founded ≡ ok staffed
unfolding set_role require_community_id require_bytes require_address optional_scope
    create_community require_string optional_policy_hash optional_policy_uri require_authorized
    identity_contract set_identity_contract effective_rank rank effective_role check_admin
staffed-ok = refl

abbrev offered : State
offered =
    after staffed
      (propose_owner_transfer (chain_at 4) (some id) (some (address 1)) (some (address 2)) staffed)

offered-ok :
    propose_owner_transfer (chain_at 4) (some id) (some (address 1)) (some (address 2)) staffed
    ≡ ok offered
unfolding propose_owner_transfer require_community_id require_bytes require_address set_role
    optional_scope create_community require_string optional_policy_hash optional_policy_uri
    require_authorized identity_contract set_identity_contract effective_rank rank effective_role
    check_admin is_empty get_community
offered-ok = refl

abbrev record_or : CommunityRecord → Option CommunityRecord → CommunityRecord
record_or d none = d
record_or d (some c) = c

abbrev no_record : CommunityRecord
no_record = record {
  id = [];
  owner = [];
  name = [];
  policy_hash = none;
  policy_uri = none;
  transfer_delay_ms = 0;
  pending_owner = none;
  transfer_effective_at = 0;
  created_at = 0;
  updated_at = 0;
}

abbrev pending_record : CommunityRecord
pending_record = record_or no_record (mock.get offered.communities id)

abbrev old_record : CommunityRecord
old_record = record_or no_record (mock.get staffed.communities id)

abbrev role_of : RoleRecord
role_of = record { role = 4; scope = none; expires_at = 0; granted_by = address 1; granted_at = 3 }

founded-Reach : Reach fresh founded
founded-Reach =
    next (chain_at 2) (next (chain_at 1) here (Step.sets_identity (some (address 3)) configured-ok))
      (Step.creates create_args founded-ok)

pending-ok : get_community (some id) offered ≡ some pending_record
unfolding propose_owner_transfer require_community_id require_bytes require_address set_role
    optional_scope create_community require_string optional_policy_hash optional_policy_uri
    require_authorized identity_contract set_identity_contract effective_rank rank effective_role
    check_admin is_empty get_community
pending-ok = refl

old-ok : mock.get staffed.communities id ≡ some old_record
unfolding set_role require_community_id require_bytes require_address optional_scope
    create_community require_string optional_policy_hash optional_policy_uri require_authorized
    identity_contract set_identity_contract effective_rank rank effective_role check_admin
old-ok = refl

pending_owner-ok : pending_record.pending_owner ≡ some (address 2)
unfolding propose_owner_transfer require_community_id require_bytes require_address set_role
    optional_scope create_community require_string optional_policy_hash optional_policy_uri
    require_authorized identity_contract set_identity_contract effective_rank rank effective_role
    check_admin is_empty get_community
pending_owner-ok = refl

time-ok : pending_record.transfer_effective_at ≤ 14
unfolding propose_owner_transfer require_community_id require_bytes require_address set_role
    optional_scope create_community require_string optional_policy_hash optional_policy_uri
    require_authorized identity_contract set_identity_contract effective_rank rank effective_role
    check_admin is_empty get_community
time-ok = omega arith

role-ok : mock.get staffed.roles (role_key id (address 2)) ≡ some role_of
unfolding set_role require_community_id require_bytes require_address optional_scope
    create_community require_string optional_policy_hash optional_policy_uri require_authorized
    identity_contract set_identity_contract effective_rank rank effective_role check_admin
role-ok = refl

owner_changes_only_by_transfer_example : After (chain_at 4) staffed offered id old_record
owner_changes_only_by_transfer_example =
    owner_changes_only_by_transfer (chain_at 4) staffed offered id old_record
      (Step.proposes (some id) (some (address 1)) (some (address 2)) offered-ok) old-ok

set_role_keeps_ranks_example :
    Permitted (chain_at 3) role_args founded
    × (((old_record.id ≡ id) × (address 4 ≡ address 2))
        ⊎ (effective_role staffed old_record (address 4) 5
            ≡ effective_role founded old_record (address 4) 5))
set_role_keeps_ranks_example =
    set_role_keeps_ranks (chain_at 3) role_args founded staffed old_record (address 4) 5
      founded-Reach refl staffed-ok

stored_role_is_not_owner_example : Ruled staffed id (address 2)
stored_role_is_not_owner_example =
    stored_role_is_not_owner id (address 2) role_of refl
      (next (chain_at 3) founded-Reach (Step.sets_role role_args staffed-ok)) role-ok

due_transfer_executes_example : HandedOver (chain_at 14) id (address 2) offered
unfolding is_empty
due_transfer_executes_example =
    due_transfer_executes (chain_at 14) offered id (address 2) pending_record pending-ok
      (omega arith) pending_owner-ok refl time-ok
