-- ===== src/Publications/Checks.antt =====
-- The configuration, the checks and the helpers that the methods share.
use open_social_protocol.Prelude.{
  ℕ, Bool, true, false, Option, none, some, List, [], ◌∷◌, ◌&&◌, ◌==◌, not, leb, ltb, length, drop,
  if◌then◌else◌, String, str_append,
}
use open_social_protocol.Chain.{
  Bytes, Text, Sdk, Env, Usage, Reply, failed, empty, object, Result, ok, reverted, ◌>>=◌, ◌>>◌,
  require, require_some,
}
use open_social_protocol.Chain.Util.{
  concat, u32be, u64be, is_empty, value, require_address, require_string,
}
use open_social_protocol.Publications.State.{
  protocol_version, max_media_refs, max_location_chars, max_locations_per_media, max_mime_chars,
  max_key_ref_bytes, hash_length, first_sequence, post_id_domain, MediaRef, AuthorState,
  Dependencies, State,
}

-- Publications.requireHash
unfoldable pub require_hash : Option Bytes → String → Result Bytes
require_hash v what = do
  require (not (is_empty v)) (str_append what " is required")
  require (length (value v) == hash_length) (str_append what " must be 32 bytes")
  ok (value v)

-- Publications.optionalHash
unfoldable pub optional_hash : Option Bytes → String → Result (Option Bytes)
optional_hash v what =
    if is_empty v
    then ok none
    else require (length (value v) == hash_length) (str_append what " must be empty or 32 bytes")
      >> ok v

-- Publications.optionalBytes
unfoldable pub optional_bytes : Option Bytes → ℕ → String → Result (Option Bytes)
optional_bytes v max what =
    if is_empty v
    then ok none
    else require (leb (length (value v)) max) (str_append what " too large") >> ok v

-- The inner loop of `validateMedia`.
unfoldable pub validate_locations : List Text → Result (Unit {0})
validate_locations [] = ok tt
validate_locations (l ∷ locations) =
    require (leb (length l) max_location_chars) "media location too long"
    >> validate_locations locations

-- The outer loop of `validateMedia`.
unfoldable pub validate_refs : List MediaRef → Result (Unit {0})
validate_refs [] = ok tt
validate_refs (ref ∷ media) = do
  mime ← require_string ref.mime max_mime_chars "media mime"
  hash ← optional_hash ref.content_hash "media content_hash"
  require (leb (length ref.locations) max_locations_per_media) "too many media locations"
  validate_locations ref.locations
  key ← optional_bytes ref.key_ref max_key_ref_bytes "media key_ref"
  validate_refs media

-- Publications.validateMedia
unfoldable pub validate_media : List MediaRef → Result (Unit {0})
validate_media media =
    require (leb (length media) max_media_refs) "too many media refs" >> validate_refs media

-- A multihash of SHA-256: its code, its length and 32 bytes.
abbrev pub is_multihash : Bytes → Bool
is_multihash [] = false
is_multihash (x ∷ []) = false
is_multihash (x ∷ y ∷ digest) = (length digest == hash_length) && (x == 18) && (y == 32)

-- Publications.sha256
unfoldable pub sha256 : Env → Bytes → Result Bytes
sha256 env message =
    if is_multihash (env.hash message)
    then ok (drop 2 (env.hash message))
    else require (length (env.hash message) == hash_length) "unexpected digest length"
      >> ok (env.hash message)

abbrev pub author_or_new : Option AuthorState → AuthorState
author_or_new none = record { next_sequence = first_sequence; post_count = 0; last_publish_at = 0 }
author_or_new (some a) = a

abbrev pub dependencies_or_empty : Option Dependencies → Dependencies
dependencies_or_empty none = record { identity = none; relationships = none }
dependencies_or_empty (some d) = d

-- A failed call reverts, and a null object counts as not blocked.
abbrev pub block_reply : Reply Bool → Result Bool
block_reply failed = reverted "block check failed"
block_reply empty = ok false
block_reply (object b) = ok b

abbrev pub has : {V : Type 0} → Option V → Bool
has none = false
has (some v) = true

-- Publications.idempotencyKey
abbrev pub idempotency_key : Bytes → Bytes → Bytes
idempotency_key author key = concat (author ∷ key ∷ [])

module _ ⦃sdk : Sdk⦄ where
  open sdk use {string_to_bytes}

  -- Publications.computePostId
  unfoldable pub compute_post_id : Env → Bytes → ℕ → Bytes → Result Bytes
  compute_post_id env author sequence content_hash = sha256 env (
      concat (
        string_to_bytes post_id_domain
        ∷ env.chain_id
        ∷ u32be protocol_version
        ∷ author
        ∷ u64be sequence
        ∷ content_hash
        ∷ []))

module _ ⦃sdk : Sdk⦄ ⦃usage : Usage⦄ where
  open sdk use {get, put}

  -- Publications.set_token_contract
  unfoldable pub set_token_contract : Env → Option Bytes → State → Result State
  set_token_contract env address s = do
    require (env.authorized env.contract_id) "authorization failed"
    a ← require_address address "token"
    ok (record s { token = some a })

  -- Publications.get_token_contract
  unfoldable pub get_token_contract : State → Option Bytes
  get_token_contract s = s.token

  -- Publications.dependencies, and Publications.get_dependencies
  unfoldable pub dependencies : State → Dependencies
  dependencies s = dependencies_or_empty s.config

  -- Publications.set_identity_contract
  unfoldable pub set_identity_contract : Env → Option Bytes → State → Result State
  set_identity_contract env address s = do
    require (env.authorized env.contract_id) "authorization failed"
    a ← require_address address "address"
    ok (record s { config = some (record (dependencies s) { identity = some a }) })

  -- Publications.set_relationships_contract
  unfoldable pub set_relationships_contract : Env → Option Bytes → State → Result State
  set_relationships_contract env address s = do
    require (env.authorized env.contract_id) "authorization failed"
    a ← require_address address "address"
    ok (record s { config = some (record (dependencies s) { relationships = some a }) })

  -- Publications.identityContract: empty bytes when it is unset.
  unfoldable pub identity_contract : State → Bytes
  identity_contract s =
      if is_empty (dependencies s).identity then [] else value (dependencies s).identity

  -- Publications.relationshipsContract
  unfoldable pub relationships_contract : State → Bytes
  relationships_contract s =
      if is_empty (dependencies s).relationships then [] else value (dependencies s).relationships

  -- Publications.consume: nothing is charged before a token contract is set.
  unfoldable pub consume : Bytes → State → Result State
  consume account s = if is_empty s.token then ok s else do
    ledger ←
        require_some (usage.consume (value s.token) account 1 s.ledger) "usage allowance exhausted"
    ok (record s { ledger = ledger })

  -- Publications.loadAuthor
  unfoldable pub load_author : State → Bytes → AuthorState
  load_author s author = author_or_new (get s.authors author)

  -- Publications.isBlocked
  unfoldable pub is_blocked : Env → State → Bytes → Bytes → Result Bool
  is_blocked env s actor target = do
    require (ltb 0 (length (relationships_contract s))) "relationships contract not configured"
    block_reply (env.is_blocked (relationships_contract s) actor target)

  -- Publications.reserveIdempotencyKey
  unfoldable pub reserve_idempotency_key : Bytes → Option Bytes → Bytes → State → Result State
  reserve_idempotency_key author none post_id s = ok s
  reserve_idempotency_key author (some key) post_id s = do
    require (not (has (get s.idempotency (idempotency_key author key)))) "duplicate idempotency key"
    ok (record s { idempotency = put s.idempotency (idempotency_key author key) post_id })
