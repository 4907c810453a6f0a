-- ===== src/Publications/Methods.antt =====
-- `set_lifecycle`, the methods that only emit an event, and the reads.
use open_social_protocol.Prelude.{
  ℕ, Bool, false, Option, none, some, [], ◌∷◌, ◌||◌, ◌==◌, not, leb, ltb, length, if◌then◌else◌,
}
use open_social_protocol.Chain.{
  Bytes, Text, Sdk, Env, Usage, Result, ok, ◌>>=◌, ◌>>◌, require, require_some,
}
use open_social_protocol.Chain.Util.{
  is_empty, value, require_address, require_bytes, require_string,
}
use open_social_protocol.Chain.Actor
use open_social_protocol.Chain.Actor.{require_authorized}
use open_social_protocol.Publications.State.{
  protocol_version, max_envelope_bytes, max_media_refs, max_key_package_bytes,
  max_idempotency_key_bytes, max_location_chars, max_reason_chars, max_adapter_chars,
  max_external_ref_chars, max_audience_id_bytes, max_lifecycle_state, max_outcome_state, deleted,
  migrated, superseded, succeeded, PostRecord, AuthorState, lifecycle, reaction, keys_distributed,
  cross_post_outcome, State, emit,
}
use open_social_protocol.Publications.Checks.{
  require_hash, optional_hash, optional_bytes, author_or_new, has, idempotency_key,
  identity_contract, consume, load_author,
}
use open_social_protocol.Publications.Arguments.{some_bytes}
use open_social_protocol.Publications.Publish.{impacted}

-- publications.set_lifecycle_arguments
pub record LifecycleArguments : Type 0 where
  pub author : Option Bytes
  pub post_id : Option Bytes
  pub version : Option Bytes
  pub state : ℕ
  pub reason : Option Text
  pub replacement_id : Option Bytes
  pub device : Option Bytes

-- publications.record_cross_post_arguments
pub record CrossPostArguments : Type 0 where
  pub author : Option Bytes
  pub idempotency_key : Option Bytes
  pub adapter : Option Text
  pub state : ℕ
  pub external_ref : Option Text
  pub post_id : Option Bytes
  pub manifest_hash : Option Bytes
  pub device : Option Bytes

-- publications.limits
pub record Limits : Type 0 where
  pub envelope_bytes : ℕ
  pub media_refs : ℕ
  pub key_package_bytes : ℕ
  pub idempotency_key_bytes : ℕ
  pub location_chars : ℕ
  pub version : ℕ

-- Publications.get_limits
abbrev pub get_limits : Limits
get_limits = record {
  envelope_bytes = max_envelope_bytes;
  media_refs = max_media_refs;
  key_package_bytes = max_key_package_bytes;
  idempotency_key_bytes = max_idempotency_key_bytes;
  location_chars = max_location_chars;
  version = protocol_version;
}

abbrev pub has_text : Option Text → Bool
has_text none = false
has_text (some t) = ltb 0 (length t)

module _ ⦃sdk : Sdk⦄ ⦃usage : Usage⦄ where
  open sdk use {get, put, equal}

  unfoldable pub other_post : Option Bytes → Bytes → Result (Option Bytes)
  other_post replacement_id id = do
    other ← require_hash replacement_id "replacement_id"
    require (not (equal other id)) "replacement_id must differ from post_id"
    ok (some other)

  -- The post that takes over from a migrated or superseded one.
  unfoldable pub replacement : LifecycleArguments → Bytes → Result (Option Bytes)
  replacement args id =
      if (args.state == migrated) || (args.state == superseded)
      then other_post args.replacement_id id
      else require (is_empty args.replacement_id) "replacement_id not allowed for this state"
        >> ok none

  -- Publications.set_lifecycle
  unfoldable pub set_lifecycle : Env → LifecycleArguments → State → Result State
  set_lifecycle env args s = do
    author ← require_address args.author "author"
    id ← require_hash args.post_id "post_id"
    version ← require_hash args.version "version"
    require (leb args.state max_lifecycle_state) "unknown lifecycle state"
    reason ← require_string args.reason max_reason_chars "reason"
    other ← replacement args id
    signer ← require_authorized env (identity_contract s) author args.device Actor.publish
    rec ← require_some (get s.posts id) "post not found"
    require (equal rec.author author) "author mismatch"
    require (equal rec.latest_version version) "version mismatch"
    require (not (rec.state == deleted)) "post deleted"
    ok (
        emit (lifecycle author id version args.state reason other env.now) (author ∷ []) (record s {
          posts = put s.posts id (record rec { state = args.state; updated_at = env.now });
        }))

  -- Publications.react: the actor, the post, the device, the reaction and whether it is taken back.
  unfoldable pub react :
      Env → Option Bytes → Option Bytes → Option Bytes → ℕ → Bool → State → Result State
  react env actor post_id device kind removes s = do
    a ← require_address actor "actor"
    id ← require_hash post_id "post_id"
    require (not (kind == 0)) "reaction is required"
    signer ← require_authorized env (identity_contract s) a device Actor.react
    rec ← require_some (get s.posts id) "post not found"
    require (not (rec.state == deleted)) "post deleted"
    s' ← if removes then ok s else consume a s
    ok (emit (reaction a id rec.author kind removes env.now) (impacted a (some rec.author)) s')

  -- Publications.distribute_keys
  unfoldable pub distribute_keys :
      Env → Option Bytes → Option Bytes → ℕ → Option Bytes → Option Bytes → State → Result State
  distribute_keys env author audience_id epoch packages device s = do
    a ← require_address author "author"
    bytes ← require_bytes packages max_key_package_bytes "packages"
    audience ← optional_bytes audience_id max_audience_id_bytes "audience_id"
    signer ← require_authorized env (identity_contract s) a device Actor.publish
    ok (emit (keys_distributed a audience epoch bytes env.now) (a ∷ []) s)

  -- The post of a reported outcome: it exists, is the author's, and the key is not bound to another.
  unfoldable pub check_outcome_post :
      Option Bytes → Option Bytes → Bytes → State → Result (Unit {0})
  check_outcome_post none bound author s = ok tt
  check_outcome_post (some id) bound author s = do
    rec ← require_some (get s.posts id) "post not found"
    require (equal rec.author author) "author mismatch"
    require (not (has bound) || Actor.same bound (some id)) "idempotency key bound to another post"

  -- A stored post_ref without an id counts as none.
  abbrev pub bound_post : Option Bytes → Option Bytes
  bound_post bound = some_bytes bound

  unfoldable pub outcome_post : Option Bytes → Result (Option Bytes)
  outcome_post post_id =
      if is_empty post_id then ok none else do id ← require_hash post_id "post_id"; ok (some id)

  -- Publications.record_cross_post
  unfoldable pub record_cross_post : Env → CrossPostArguments → State → Result State
  record_cross_post env args s = do
    author ← require_address args.author "author"
    key ← require_bytes args.idempotency_key max_idempotency_key_bytes "idempotency_key"
    require (has_text args.adapter) "adapter is required"
    adapter ← require_string args.adapter max_adapter_chars "adapter"
    external_ref ← require_string args.external_ref max_external_ref_chars "external_ref"
    manifest ← optional_hash args.manifest_hash "manifest_hash"
    require (leb args.state max_outcome_state) "unknown outcome state"
    id ← outcome_post args.post_id
    require (not (args.state == succeeded) || has id) "post_id is required for a succeeded outcome"
    signer ← require_authorized env (identity_contract s) author args.device Actor.publish
    let bound = bound_post (get s.idempotency (idempotency_key author key))
    check_outcome_post id bound author s
    require (not (args.state == succeeded) || has bound) "idempotency key not bound to a post"
    ok (
        emit (cross_post_outcome author key adapter args.state external_ref id manifest env.now)
          (author ∷ []) s)

  -- Publications.get_post
  unfoldable pub get_post : Option Bytes → State → Option PostRecord
  get_post post_id s = if is_empty post_id then none else get s.posts (value post_id)

  -- Publications.get_author_state
  unfoldable pub get_author_state : Option Bytes → State → AuthorState
  get_author_state author s =
      if is_empty author then author_or_new none else load_author s (value author)

  -- Publications.get_post_by_idempotency_key
  unfoldable pub get_post_by_idempotency_key : Option Bytes → Option Bytes → State → Option Bytes
  get_post_by_idempotency_key author key s =
      if is_empty author || is_empty key
      then none
      else get s.idempotency (idempotency_key (value author) (value key))
