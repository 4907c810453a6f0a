-- ===== src/Sponsorship/Sponsors.antt =====
-- `set_sponsor`, `deactivate_sponsor` and `get_sponsor`, with their checks.
use open_social_protocol.Prelude.{
  ℕ, Bool, true, false, Option, none, some, List, [], ◌∷◌, ◌&&◌, ◌||◌, ◌==◌, leb, length, drop,
  if◌then◌else◌,
}
use open_social_protocol.Chain.{
  Bytes, Text, Sdk, Env, Result, ok, ◌>>=◌, ◌>>◌, require, require_some,
}
use open_social_protocol.Chain.Util.{is_empty, value, require_address, require_string}
use open_social_protocol.Sponsorship.State.{
  max_endpoint_length, max_policy_uri_length, max_allowed_calls, max_entry_points_per_call,
  max_bytes_per_op, https_prefix, localhost, AllowedCall, SponsorRecord, sponsor_set,
  sponsor_deactivated, State, emit,
}

-- String.startsWith
unfoldable pub starts_with : Text → Text → Bool
starts_with s [] = true
starts_with [] (p ∷ prefix) = false
starts_with (c ∷ s) (p ∷ prefix) = c == p && starts_with s prefix

-- What may follow "http://localhost": nothing, a colon or a slash.
abbrev pub localhost_end : Text → Bool
localhost_end [] = true
localhost_end (c ∷ rest) = c == b':' || c == b'/'

-- The value of `ok` in `validateEndpoint`.
unfoldable pub endpoint_ok : Text → Bool
endpoint_ok endpoint =
    starts_with endpoint https_prefix
    || (starts_with endpoint localhost && localhost_end (drop (length localhost) endpoint))

-- Sponsorship.validateEndpoint
unfoldable pub validate_endpoint : Option Text → Result Text
validate_endpoint v = do
  endpoint ← require_string v max_endpoint_length "endpoint"
  require (length endpoint == 0 || endpoint_ok endpoint) "endpoint must use https"
  ok endpoint

-- The loop of `validateAllowed`.
unfoldable pub validate_calls : List AllowedCall → Result (Unit {0})
validate_calls [] = ok tt
validate_calls (c ∷ allowed) = do
  id ← require_address (some c.contract_id) "allowed contract_id"
  require (leb (length c.entry_points) max_entry_points_per_call) "too many entry points"
  validate_calls allowed

-- Sponsorship.validateAllowed
unfoldable pub validate_allowed : List AllowedCall → Result (Unit {0})
validate_allowed allowed =
    require (leb (length allowed) max_allowed_calls) "too many allowed calls"
    >> validate_calls allowed

abbrev pub registered_at_or : ℕ → Option SponsorRecord → ℕ
registered_at_or now none = now
registered_at_or now (some existing) = existing.registered_at

-- sponsorship.set_sponsor_arguments
pub record SetSponsor : Type 0 where
  pub sponsor : Option Bytes
  pub endpoint : Option Text
  pub policy_uri : Option Text
  pub policy_version : ℕ
  pub allowed : List AllowedCall
  pub max_rc_per_op : ℕ
  pub max_ops_per_user_per_day : ℕ
  pub bytes_per_op : ℕ
  pub active : Bool

module _ ⦃sdk : Sdk⦄ where
  open sdk use {get, put}

  -- Sponsorship.requireSponsorRecord
  unfoldable pub require_sponsor_record : State → Bytes → Result SponsorRecord
  require_sponsor_record s sponsor = require_some (get s.sponsors sponsor) "sponsor not registered"

  -- Sponsorship.set_sponsor
  unfoldable pub set_sponsor : Env → SetSponsor → State → Result State
  set_sponsor env args s = do
    sponsor ← require_address args.sponsor "sponsor"
    require (env.authorized sponsor) "authorization failed"
    endpoint ← validate_endpoint args.endpoint
    policy_uri ← require_string args.policy_uri max_policy_uri_length "policy_uri"
    validate_allowed args.allowed
    require (leb args.bytes_per_op max_bytes_per_op) "max_bytes_per_op too large"
    let rec : SponsorRecord = record {
      sponsor = sponsor;
      endpoint = endpoint;
      policy_uri = policy_uri;
      policy_version = args.policy_version;
      allowed = args.allowed;
      max_rc_per_op = args.max_rc_per_op;
      max_ops_per_user_per_day = args.max_ops_per_user_per_day;
      bytes_per_op = args.bytes_per_op;
      active = args.active;
      registered_at = registered_at_or env.now (get s.sponsors sponsor);
      updated_at = env.now;
    }
    ok (
        emit (sponsor_set sponsor endpoint args.policy_version args.active env.now) (sponsor ∷ [])
          (record s { sponsors = put s.sponsors sponsor rec }))

  -- Sponsorship.deactivate_sponsor
  unfoldable pub deactivate_sponsor : Env → Option Bytes → State → Result State
  deactivate_sponsor env sponsor s = do
    a ← require_address sponsor "sponsor"
    require (env.authorized a) "authorization failed"
    rec ← require_sponsor_record s a
    ok (
        emit (sponsor_deactivated a env.now) (a ∷ []) (record s {
          sponsors = put s.sponsors a (record rec { active = false; updated_at = env.now });
        }))

  -- Sponsorship.get_sponsor
  unfoldable pub get_sponsor : Option Bytes → State → Option SponsorRecord
  get_sponsor sponsor s = if is_empty sponsor then none else get s.sponsors (value sponsor)
