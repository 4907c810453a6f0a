-- ===== src/Sponsorship/State.antt =====
-- The storage and the events of the sponsorship contract, and its constants.
use open_social_protocol.Prelude.{ℕ, Bool, List, [], ◌∷◌}
use open_social_protocol.Chain.{Bytes, Text, Sdk}

abbrev pub max_endpoint_length : ℕ
max_endpoint_length = 256

abbrev pub max_policy_uri_length : ℕ
max_policy_uri_length = 256

abbrev pub max_allowed_calls : ℕ
max_allowed_calls = 32

abbrev pub max_entry_points_per_call : ℕ
max_entry_points_per_call = 64

abbrev pub max_bytes_per_op : ℕ
max_bytes_per_op = 65536

-- "https://"
abbrev pub https_prefix : Text
https_prefix = b'h' ∷ b't' ∷ b't' ∷ b'p' ∷ b's' ∷ b':' ∷ b'/' ∷ b'/' ∷ []

-- "http://localhost"
abbrev pub localhost : Text
localhost =
    b'h' ∷ b't' ∷ b't' ∷ b'p' ∷ b':' ∷ b'/' ∷ b'/' ∷ b'l' ∷ b'o' ∷ b'c' ∷ b'a' ∷ b'l' ∷ b'h' ∷ b'o'
    ∷ b's' ∷ b't' ∷ []

-- sponsorship.allowed_call; an absent contract id is empty, and `validateAllowed` refuses both
pub record AllowedCall : Type 0 where
  pub contract_id : Bytes
  pub entry_points : List ℕ

-- sponsorship.sponsor_record
pub record SponsorRecord : Type 0 where
  pub sponsor : Bytes
  pub endpoint : Text
  pub policy_uri : Text
  pub policy_version : ℕ
  pub allowed : List AllowedCall
  pub max_rc_per_op : ℕ
  pub max_ops_per_user_per_day : ℕ
  pub bytes_per_op : ℕ
  pub active : Bool
  pub registered_at : ℕ
  pub updated_at : ℕ

-- sponsorship.user_grant
pub record UserGrant : Type 0 where
  pub sponsor : Bytes
  pub user : Bytes
  pub daily_ops : ℕ
  pub expires_at : ℕ
  pub revoked : Bool
  pub updated_at : ℕ

-- The osp.sponsorship.* events.
pub data Event : Type 0 where
  sponsor_set : Bytes → Text → ℕ → Bool → ℕ → Event
  sponsor_deactivated : Bytes → ℕ → Event
  user_grant_set : Bytes → Bytes → ℕ → ℕ → ℕ → Event
  user_grant_revoked : Bytes → Bytes → ℕ → Event

-- The maps of `class Sponsorship`, and what was emitted, newest first, each event with its impacted
-- addresses.
pub record State ⦃sdk : Sdk⦄ : Type 0 where
  pub sponsors : sdk.Map SponsorRecord
  pub grants : sdk.Map UserGrant
  pub events : List (Event × List Bytes)

module _ ⦃sdk : Sdk⦄ where
  -- The storage of a contract that was just deployed.
  abbrev pub fresh : State
  fresh = record { sponsors = sdk.empty; grants = sdk.empty; events = [] }

  -- System.event
  abbrev pub emit : Event → List Bytes → State → State
  emit e impacted s = record s { events = (e, impacted) ∷ s.events }
