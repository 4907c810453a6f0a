-- ===== src/Publications/State.antt =====
-- The storage and the events of the publications contract, and its constants.
use open_social_protocol.Prelude.{ℕ, Bool, Option, none, List, [], ◌∷◌}
use open_social_protocol.Chain.{Bytes, Text, Sdk, Usage}

abbrev pub protocol_version : ℕ
protocol_version = 1

abbrev pub max_envelope_bytes : ℕ
max_envelope_bytes = 4096

abbrev pub max_media_refs : ℕ
max_media_refs = 8

abbrev pub max_key_package_bytes : ℕ
max_key_package_bytes = 16384

abbrev pub max_idempotency_key_bytes : ℕ
max_idempotency_key_bytes = 32

abbrev pub max_location_chars : ℕ
max_location_chars = 256

abbrev pub max_locations_per_media : ℕ
max_locations_per_media = 4

abbrev pub max_mime_chars : ℕ
max_mime_chars = 128

abbrev pub max_reason_chars : ℕ
max_reason_chars = 256

abbrev pub max_adapter_chars : ℕ
max_adapter_chars = 64

abbrev pub max_external_ref_chars : ℕ
max_external_ref_chars = 256

abbrev pub max_audience_id_bytes : ℕ
max_audience_id_bytes = 32

abbrev pub max_key_ref_bytes : ℕ
max_key_ref_bytes = 128

abbrev pub hash_length : ℕ
hash_length = 32

abbrev pub first_sequence : ℕ
first_sequence = 1

-- "osp/v1/post-id"
abbrev pub post_id_domain : Text
post_id_domain =
    b'o' ∷ b's' ∷ b'p' ∷ b'/' ∷ b'v' ∷ b'1' ∷ b'/' ∷ b'p' ∷ b'o' ∷ b's' ∷ b't' ∷ b'-' ∷ b'i' ∷ b'd'
    ∷ []

-- The enums come over the wire as numbers, and the methods check them.
-- publications.audience_kind: 0 everyone, 1 friends, 2 custom
abbrev pub custom : ℕ
custom = 2

abbrev pub max_audience_kind : ℕ
max_audience_kind = 2

-- publications.lifecycle_state: 0 active, 1 author_hidden, 2 deleted, 3 unavailable, 4 migrated,
-- 5 superseded
abbrev pub active : ℕ
active = 0

abbrev pub deleted : ℕ
deleted = 2

abbrev pub migrated : ℕ
migrated = 4

abbrev pub superseded : ℕ
superseded = 5

abbrev pub max_lifecycle_state : ℕ
max_lifecycle_state = 5

-- publications.outcome_state: 0 succeeded, 1 partial, 2 unknown, 3 failed, 4 reconcile_required
abbrev pub succeeded : ℕ
succeeded = 0

abbrev pub max_outcome_state : ℕ
max_outcome_state = 4

-- publications.media_ref
pub record MediaRef : Type 0 where
  pub content_hash : Option Bytes
  pub mime : Option Text
  pub size : ℕ
  pub locations : List Text
  pub key_ref : Option Bytes

-- publications.post_record; what the contract stores has no null author or version
pub record PostRecord : Type 0 where
  pub author : Bytes
  pub sequence : ℕ
  pub version_count : ℕ
  pub latest_version : Bytes
  pub state : ℕ
  pub reply_to : Option Bytes
  pub audience : ℕ
  pub created_at : ℕ
  pub updated_at : ℕ

-- publications.author_state
pub record AuthorState : Type 0 where
  pub next_sequence : ℕ
  pub post_count : ℕ
  pub last_publish_at : ℕ

-- publications.get_dependencies_result, which holds the stored configuration
pub record Dependencies : Type 0 where
  pub identity : Option Bytes
  pub relationships : Option Bytes

-- publications.published_event
pub record Published : Type 0 where
  pub author : Bytes
  pub post_id : Bytes
  pub content_hash : Bytes
  pub previous_version : Option Bytes
  pub version_count : ℕ
  pub sequence : ℕ
  pub audience : ℕ
  pub audience_id : Option Bytes
  pub epoch : ℕ
  pub envelope : Option Bytes
  pub media : List MediaRef
  pub reply_to : Option Bytes
  pub idempotency_key : Option Bytes
  pub version : ℕ
  pub timestamp : ℕ

-- The osp.publications.* events.
pub data Event : Type 0 where
  published : Published → Event
  lifecycle : Bytes → Bytes → Bytes → ℕ → Text → Option Bytes → ℕ → Event
  reaction : Bytes → Bytes → Bytes → ℕ → Bool → ℕ → Event
  keys_distributed : Bytes → Option Bytes → ℕ → Bytes → ℕ → Event
  cross_post_outcome : Bytes → Bytes → Text → ℕ → Text → Option Bytes → Option Bytes → ℕ → Event

-- The storage of `class Publications` (the address of the token contract as its setter stores it,
-- the dependencies and the three maps), the state behind the token contract, and what was emitted,
-- newest first, each event with its impacted addresses. A post_ref is the id that it holds.
pub record State ⦃sdk : Sdk⦄ ⦃usage : Usage⦄ : Type 0 where
  pub token : Option Bytes
  pub config : Option Dependencies
  pub posts : sdk.Map PostRecord
  pub authors : sdk.Map AuthorState
  pub idempotency : sdk.Map Bytes
  pub ledger : usage.Ledger
  pub events : List (Event × List Bytes)

module _ ⦃sdk : Sdk⦄ ⦃usage : Usage⦄ where
  -- The storage of a contract that was just deployed.
  abbrev pub fresh : usage.Ledger → State
  fresh ledger = record {
    token = none;
    config = none;
    posts = sdk.empty;
    authors = sdk.empty;
    idempotency = sdk.empty;
    ledger = ledger;
    events = [];
  }

  -- System.event
  abbrev pub emit : Event → List Bytes → State → State
  emit e impacted s = record s { events = (e, impacted) ∷ s.events }
