-- ===== src/Publications/Publish.antt =====
-- `publish`: the first version of a post, and its edits.
use open_social_protocol.Prelude.{
  ℕ, false, Option, none, some, List, [], ◌∷◌, ◌==◌, not, if◌then◌else◌,
}
use open_social_protocol.Chain.{
  Bytes, Sdk, Env, Usage, Result, ok, ◌>>=◌, ◌>>◌, require, require_some, add32, add64,
}
use open_social_protocol.Chain.Util.{is_empty, value}
use open_social_protocol.Chain.Actor
use open_social_protocol.Chain.Actor.{require_authorized}
use open_social_protocol.Publications.State.{
  protocol_version, active, deleted, PostRecord, AuthorState, published, State, emit,
}
use open_social_protocol.Publications.Checks.{
  has, compute_post_id, identity_contract, consume, load_author, is_blocked,
  reserve_idempotency_key,
}
use open_social_protocol.Publications.Arguments.{
  PublishArguments, some_bytes, Checked, check_arguments,
}

-- What a new version of a post leaves: the state, the record it stored, and the fields of the event.
pub record Written ⦃sdk : Sdk⦄ ⦃usage : Usage⦄ : Type 0 where
  pub state : State
  pub rec : PostRecord
  pub previous : Option Bytes
  pub reply_to : Option Bytes
  pub reply_author : Option Bytes

abbrev pub author_of : Option PostRecord → Option Bytes
author_of none = none
author_of (some rec) = some rec.author

module _ ⦃sdk : Sdk⦄ ⦃usage : Usage⦄ where
  open sdk use {get, put, equal}

  -- The post that an edit is of, none for a first version.
  unfoldable pub existing_post : State → Bytes → Option Bytes → Result (Option PostRecord)
  existing_post s id previous_version =
      if is_empty previous_version
      then ok none
      else do rec ← require_some (get s.posts id) "post not found"; ok (some rec)

  -- The stored thread position decides for an edit.
  abbrev pub capability : Option PostRecord → Option Bytes → ℕ
  capability none none = Actor.publish
  capability none (some parent) = Actor.comment
  capability (some rec) requested = if is_empty rec.reply_to then Actor.publish else Actor.comment

  -- The author of the post that is replied to, who must not block the author of the reply.
  unfoldable pub reply_target : Env → Bytes → Option Bytes → State → Result (Option Bytes)
  reply_target env author none s = ok none
  reply_target env author (some parent_id) s = do
    parent ← require_some (get s.posts parent_id) "reply target not found"
    require (not (parent.state == deleted)) "reply target deleted"
    blocked ← if equal parent.author author then ok false else is_blocked env s parent.author author
    require (not blocked) "blocked by author"
    ok (some parent.author)

  abbrev pub next_author : ℕ → AuthorState → AuthorState
  next_author now a = record {
    next_sequence = add64 a.next_sequence 1;
    post_count = add64 a.post_count 1;
    last_publish_at = now;
  }

  -- The branch of `publish` for a first version.
  unfoldable pub first_version : Env → PublishArguments → Checked → State → Result Written
  first_version env args c s = do
    require (not (has (get s.posts c.id))) "post already exists"
    require (args.sequence == (load_author s c.author).next_sequence) "sequence mismatch"
    computed ← compute_post_id env c.author args.sequence c.content_hash
    require (equal computed c.id) "post id mismatch"
    reply_author ← reply_target env c.author c.requested s
    s' ← reserve_idempotency_key c.author c.key c.id s
    let rec : PostRecord = record {
      author = c.author;
      sequence = args.sequence;
      version_count = 1;
      latest_version = c.content_hash;
      state = active;
      reply_to = c.requested;
      audience = args.audience;
      created_at = env.now;
      updated_at = env.now;
    }
    ok (record {
      state = record s' {
        posts = put s'.posts c.id rec;
        authors = put s'.authors c.author (next_author env.now (load_author s c.author));
      };
      rec = rec;
      previous = none;
      reply_to = c.requested;
      reply_author = reply_author;
    })

  -- A request to reply elsewhere than the post does.
  unfoldable pub check_reply : Option Bytes → Option Bytes → Result (Unit {0})
  check_reply none reply_to = ok tt
  check_reply (some requested) reply_to =
      require (Actor.same (some requested) reply_to) "reply_to change not allowed"

  -- The author of the post that an edited comment replies to.
  abbrev pub stored_reply_author : Option Bytes → State → Option Bytes
  stored_reply_author none s = none
  stored_reply_author (some parent_id) s = author_of (get s.posts parent_id)

  -- The branch of `publish` for an edit.
  unfoldable pub new_version :
      Env → PublishArguments → Checked → PostRecord → State → Result Written
  new_version env args c old s = do
    require (equal old.author c.author) "author mismatch"
    require (not (old.state == deleted)) "post deleted"
    require (equal (value args.previous_version) old.latest_version) "stale version"
    require (args.audience == old.audience) "audience change not allowed"
    check_reply c.requested (some_bytes old.reply_to)
    s' ← reserve_idempotency_key c.author c.key c.id s
    let rec : PostRecord = record old {
      version_count = add32 old.version_count 1;
      latest_version = c.content_hash;
      updated_at = env.now;
    }
    ok (record {
      state = record s' { posts = put s'.posts c.id rec };
      rec = rec;
      previous = args.previous_version;
      reply_to = some_bytes old.reply_to;
      reply_author = stored_reply_author (some_bytes old.reply_to) s;
    })

  unfoldable pub write_version :
      Env → PublishArguments → Checked → Option PostRecord → State → Result Written
  write_version env args c none s = first_version env args c s
  write_version env args c (some old) s = new_version env args c old s

  abbrev pub impacted : Bytes → Option Bytes → List Bytes
  impacted author none = author ∷ []
  impacted author (some other) = if equal other author then author ∷ [] else author ∷ other ∷ []

  -- The end of `publish`: the authority, the new version, the charge and the event.
  unfoldable pub publish_version :
      Env → PublishArguments → Checked → Option PostRecord → State → Result State
  publish_version env args c existing s = do
    signer ←
        require_authorized env (identity_contract s) c.author args.device
          (capability existing c.requested)
    w ← write_version env args c existing s
    s' ← consume c.author w.state
    ok (
        emit
          (published (record {
            author = c.author;
            post_id = c.id;
            content_hash = c.content_hash;
            previous_version = w.previous;
            version_count = w.rec.version_count;
            sequence = w.rec.sequence;
            audience = args.audience;
            audience_id = c.audience_id;
            epoch = args.epoch;
            envelope = some_bytes args.envelope;
            media = args.media;
            reply_to = w.reply_to;
            idempotency_key = c.key;
            version = protocol_version;
            timestamp = env.now;
          }))
          (impacted c.author w.reply_author) s')

  -- Publications.publish
  unfoldable pub publish : Env → PublishArguments → State → Result State
  publish env args s = do
    c ← check_arguments env args
    existing ← existing_post s c.id args.previous_version
    publish_version env args c existing s
