-- ===== src/Publications/Arguments.antt =====
-- The arguments of `publish` and their checks.
use open_social_protocol.Prelude.{
  ℕ, Option, none, some, List, ◌==◌, not, leb, length, if◌then◌else◌,
}
use open_social_protocol.Chain.{Bytes, Sdk, Env, Result, ok, ◌>>=◌, ◌>>◌, require}
use open_social_protocol.Chain.Util.{is_empty, require_address}
use open_social_protocol.Publications.State.{
  max_envelope_bytes, max_audience_id_bytes, max_audience_kind, max_idempotency_key_bytes, custom,
  MediaRef,
}
use open_social_protocol.Publications.Checks.{
  require_hash, optional_bytes, validate_media, sha256, has,
}

-- publications.publish_arguments
pub record PublishArguments : Type 0 where
  pub author : Option Bytes
  pub post_id : Option Bytes
  pub previous_version : Option Bytes
  pub sequence : ℕ
  pub audience : ℕ
  pub audience_id : Option Bytes
  pub epoch : ℕ
  pub envelope : Option Bytes
  pub content_hash : Option Bytes
  pub media : List MediaRef
  pub reply_to : Option Bytes
  pub idempotency_key : Option Bytes
  pub device : Option Bytes

-- Empty bytes count as null.
abbrev pub some_bytes : Option Bytes → Option Bytes
some_bytes v = if is_empty v then none else v

-- The audience id that the audience needs, or needs to be without.
unfoldable pub check_audience : ℕ → Option Bytes → Result (Unit {0})
check_audience audience audience_id =
    if audience == custom
    then require (has audience_id) "custom audience requires audience_id"
    else require (not (has audience_id)) "audience_id not allowed for this audience"

unfoldable pub requested_reply : Option Bytes → Result (Option Bytes)
requested_reply reply_to =
    if is_empty reply_to
    then ok none
    else do parent ← require_hash reply_to "reply_to"; ok (some parent)

-- The local variables of `publish` after the checks of its arguments.
pub record Checked : Type 0 where
  pub author : Bytes
  pub id : Bytes
  pub content_hash : Bytes
  pub audience_id : Option Bytes
  pub key : Option Bytes
  pub requested : Option Bytes

module _ ⦃sdk : Sdk⦄ where
  open sdk use {equal}

  -- The envelope is bounded, and the content hash is its own.
  unfoldable pub check_envelope : Env → Option Bytes → Bytes → Result (Unit {0})
  check_envelope env none content_hash = ok tt
  check_envelope env (some envelope) content_hash = do
    require (leb (length envelope) max_envelope_bytes) "envelope too large"
    digest ← sha256 env envelope
    require (equal digest content_hash) "content hash mismatch"

  -- The checks of the arguments of `publish`, in order.
  unfoldable pub check_arguments : Env → PublishArguments → Result Checked
  check_arguments env args = do
    author ← require_address args.author "author"
    id ← require_hash args.post_id "post_id"
    content_hash ← require_hash args.content_hash "content_hash"
    check_envelope env (some_bytes args.envelope) content_hash
    require (leb args.audience max_audience_kind) "unknown audience"
    audience_id ← optional_bytes args.audience_id max_audience_id_bytes "audience_id"
    check_audience args.audience audience_id
    validate_media args.media
    key ← optional_bytes args.idempotency_key max_idempotency_key_bytes "idempotency key"
    requested ← requested_reply args.reply_to
    ok (record {
      author = author;
      id = id;
      content_hash = content_hash;
      audience_id = audience_id;
      key = key;
      requested = requested;
    })
