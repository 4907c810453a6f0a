-- ===== src/Messaging/State.antt =====
-- The storage and the events of the messaging contract.
use open_social_protocol.Prelude.{ℕ, Option, none, List, [], ◌∷◌}
use open_social_protocol.Chain.{Bytes, Sdk, Usage}

-- messaging.get_dependencies_result, which holds the stored configuration
pub record Dependencies : Type 0 where
  pub identity : Bytes
  pub relationships : Bytes
  pub token : Bytes

-- Conversation status.
abbrev pub requested : ℕ
requested = 1

abbrev pub accepted : ℕ
accepted = 2

abbrev pub closed : ℕ
closed = 3

-- messaging.conversation_record
pub record Conversation : Type 0 where
  pub a : Bytes
  pub b : Bytes
  pub requester : Bytes
  pub status : ℕ
  pub generation : ℕ
  pub sequence : ℕ
  pub updated_at : ℕ

-- messaging.message_record
pub record Message : Type 0 where
  pub sender : Bytes
  pub recipient : Bytes
  pub message_id : Bytes
  pub content_hash : Bytes
  pub generation : ℕ
  pub sequence : ℕ
  pub timestamp : ℕ

-- The osp.messaging.* events.
pub data Event : Type 0 where
  conversation_changed : Conversation → ℕ → Event
  message_sent : Message → Bytes → ℕ → Event

-- The storage of `class Messaging`, the state behind the token contract, and what was emitted,
-- newest first, each event with its impacted addresses.
pub record State ⦃sdk : Sdk⦄ ⦃usage : Usage⦄ : Type 0 where
  pub config : Option Dependencies
  pub conversations : sdk.Map Conversation
  pub messages : sdk.Map Message
  pub ledger : usage.Ledger
  pub events : List (Event × List Bytes)

module _ ⦃sdk : Sdk⦄ ⦃usage : Usage⦄ where
  -- The storage of a contract that was just deployed.
  abbrev pub fresh : usage.Ledger → State
  fresh ledger = record {
    config = none;
    conversations = sdk.empty;
    messages = sdk.empty;
    ledger = ledger;
    events = [];
  }

  -- System.event
  abbrev pub emit : Event → List Bytes → State → State
  emit e impacted s = record s { events = (e, impacted) ∷ s.events }
