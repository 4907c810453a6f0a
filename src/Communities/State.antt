-- ===== src/Communities/State.antt =====
-- The storage and the events of the communities contract, and its constants.
use open_social_protocol.Prelude.{ℕ, ◌*◌, Option, none, List, [], ◌∷◌}
use open_social_protocol.Chain.{Bytes, Text, Sdk}

abbrev pub id_max_length : ℕ
id_max_length = 32

abbrev pub name_max_length : ℕ
name_max_length = 64

abbrev pub policy_hash_length : ℕ
policy_hash_length = 32

abbrev pub policy_uri_max_length : ℕ
policy_uri_max_length = 256

abbrev pub scope_max_length : ℕ
scope_max_length = 32

abbrev pub post_id_length : ℕ
post_id_length = 32

abbrev pub label_max_length : ℕ
label_max_length = 64

abbrev pub reason_max_length : ℕ
reason_max_length = 256

-- 30 days in milliseconds
abbrev pub transfer_delay_max_ms : ℕ
transfer_delay_max_ms = 30 * 24 * 60 * 60 * 1000

abbrev pub rank_none : ℕ
rank_none = 0

abbrev pub rank_moderator : ℕ
rank_moderator = 3

abbrev pub rank_admin : ℕ
rank_admin = 4

abbrev pub rank_owner : ℕ
rank_owner = 5

abbrev pub role_max_value : ℕ
role_max_value = 6

-- communities.community_role comes over the wire as a number: 0 none, 1 guest, 2 member, 3 moderator,
-- 4 admin, 5 owner, 6 banned
abbrev pub role_none : ℕ
role_none = 0

abbrev pub role_owner : ℕ
role_owner = 5

abbrev pub role_banned : ℕ
role_banned = 6

-- communities.community_record; what the contract stores has no null id or owner
pub record CommunityRecord : Type 0 where
  pub id : Bytes
  pub owner : Bytes
  pub name : Text
  pub policy_hash : Option Bytes
  pub policy_uri : Option Text
  pub transfer_delay_ms : ℕ
  pub pending_owner : Option Bytes
  pub transfer_effective_at : ℕ
  pub created_at : ℕ
  pub updated_at : ℕ

-- communities.role_record
pub record RoleRecord : Type 0 where
  pub role : ℕ
  pub scope : Option Bytes
  pub expires_at : ℕ
  pub granted_by : Bytes
  pub granted_at : ℕ

-- The osp.communities.* events.
pub data Event : Type 0 where
  community_created : Bytes → Bytes → Text → Option Bytes → Option Text → ℕ → ℕ → Event
  role_set : Bytes → Bytes → Bytes → ℕ → Option Bytes → ℕ → ℕ → Event
  policy_set : Bytes → Bytes → Option Bytes → Option Text → ℕ → Event
  owner_transfer_proposed : Bytes → Bytes → Bytes → ℕ → Event
  owner_transfer_cancelled : Bytes → ℕ → Event
  owner_transferred : Bytes → Bytes → Bytes → ℕ → Event
  label_set : Bytes → Bytes → Bytes → Text → Option Text → ℕ → Event

-- The storage of `class Communities`, and what was emitted, newest first, each event with its
-- impacted addresses.
pub record State ⦃sdk : Sdk⦄ : Type 0 where
  pub communities : sdk.Map CommunityRecord
  pub roles : sdk.Map RoleRecord
  pub config : Option Bytes
  pub events : List (Event × List Bytes)

module _ ⦃sdk : Sdk⦄ where
  -- The storage of a contract that was just deployed.
  abbrev pub fresh : State
  fresh = record { communities = sdk.empty; roles = sdk.empty; config = none; events = [] }

  -- System.event
  abbrev pub emit : Event → List Bytes → State → State
  emit e impacted s = record s { events = (e, impacted) ∷ s.events }
