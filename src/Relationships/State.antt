-- ===== src/Relationships/State.antt =====
-- The storage and the events of the relationships contract.
use open_social_protocol.Prelude.{ℕ, String, Bool, Option, List, [], ◌∷◌}
use open_social_protocol.Chain.{Bytes, Sdk, Usage}

-- relationships.relationship_status
pub data RelationshipStatus : Type 0 where
  none pending active inactive : RelationshipStatus

-- relationships.relationship_record; what the contract stores has no null address
pub record RelationshipRecord : Type 0 where
  pub a : Bytes
  pub b : Bytes
  pub status : RelationshipStatus
  pub requester : Bytes
  pub nonce : ℕ
  pub updated_at : ℕ

-- relationships.audience_state
pub record AudienceState : Type 0 where
  pub epoch : ℕ
  pub updated_at : ℕ

-- relationships.block_record
pub record BlockRecord : Type 0 where
  pub blocked : Bool
  pub updated_at : ℕ

-- relationships.follow_record
pub record FollowRecord : Type 0 where
  pub active : Bool
  pub updated_at : ℕ

-- The osp.relationships.* events.
pub data Event : Type 0 where
  friend_requested : Bytes → Bytes → ℕ → ℕ → Event
  friend_accepted : Bytes → Bytes → ℕ → Option Bytes → ℕ → Event
  friend_removed : Bytes → Bytes → ℕ → ℕ → ℕ → Event
  audience_rotated : Bytes → ℕ → String → ℕ → Event
  blocked : Bytes → Bytes → ℕ → ℕ → Event
  unblocked : Bytes → Bytes → ℕ → Event
  followed : Bytes → Bytes → ℕ → Event
  unfollowed : Bytes → Bytes → ℕ → Event

-- The storage of `class Relationships` (the addresses of the token and the identity contract as
-- the setters store them, and the four maps), the state behind the token contract, and what was
-- emitted, newest first, each event with its impacted addresses.
pub record State ⦃sdk : Sdk⦄ ⦃usage : Usage⦄ : Type 0 where
  pub token : Option Bytes
  pub config : Option Bytes
  pub edges : sdk.Map RelationshipRecord
  pub blocks : sdk.Map BlockRecord
  pub follows : sdk.Map FollowRecord
  pub audiences : sdk.Map AudienceState
  pub ledger : usage.Ledger
  pub events : List (Event × List Bytes)

module _ ⦃sdk : Sdk⦄ ⦃usage : Usage⦄ where
  -- The storage of a contract that was just deployed.
  abbrev pub fresh : usage.Ledger → State
  fresh ledger = record {
    token = Option.none;
    config = Option.none;
    edges = sdk.empty;
    blocks = sdk.empty;
    follows = sdk.empty;
    audiences = sdk.empty;
    ledger = ledger;
    events = [];
  }

  -- System.event
  abbrev pub emit : Event → List Bytes → State → State
  emit e impacted s = record s { events = (e, impacted) ∷ s.events }
