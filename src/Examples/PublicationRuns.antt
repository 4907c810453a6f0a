-- ===== src/Examples/PublicationRuns.antt =====
-- The publications contract on concrete inputs.
use open_social_protocol.Prelude.{
  ◌⊎◌, ◌↔◌, ◌<◌, ◌≡◌, ◌≤◌, refl, String, some, none, true, false, [], ◌∷◌, replicate, arith,
}
use open_social_protocol.Chain.{Bytes, ok, reverted}
use open_social_protocol.Chain.Util.{
  is_empty, require_address, require_string, require_bytes, u32be, u64be, u64be_loop,
}
use open_social_protocol.Chain.Actor.{require_authorized, same}
use open_social_protocol.Publications.State.{State, PostRecord, fresh}
use open_social_protocol.Publications.Checks.{
  set_identity_contract, set_relationships_contract, compute_post_id, idempotency_key, load_author,
  require_hash, sha256, optional_bytes, optional_hash, validate_media, validate_refs,
  identity_contract, dependencies, is_blocked, relationships_contract, reserve_idempotency_key,
  consume,
}
use open_social_protocol.Publications.Arguments.{
  PublishArguments, check_arguments, check_envelope, check_audience, requested_reply,
}
use open_social_protocol.Publications.Publish.{
  publish, existing_post, publish_version, write_version, first_version, reply_target,
}
use open_social_protocol.Publications.Methods.{
  LifecycleArguments, CrossPostArguments, set_lifecycle, react, record_cross_post, get_post,
  get_post_by_idempotency_key, replacement, outcome_post, check_outcome_post,
}
use open_social_protocol.Publications.Effects.{Step, Reach, here, next}
use open_social_protocol.Publications.History.{
  Follows, post_keeps_identity, bound_key_is_final, bound_key_is_own_post,
}
use open_social_protocol.Publications.Sequence.{sequence_identifies_post}
use open_social_protocol.Publications.Numbers.{HasPost, numbers_are_gapless}
use open_social_protocol.Publications.Outcomes.{succeeded_outcome_is_traceable}
use open_social_protocol.Publications.Replies.{Answered, Kept, publish_reply_is_allowed}
use open_social_protocol.Publications.Deleted.{deleted_post_reverts}
use open_social_protocol.Examples.Mock.{mock, ledger, address, chain_at, after}

abbrev content : Bytes
content = replicate 32 6

abbrev first_id : Bytes
first_id = after [] (compute_post_id (chain_at 1) (address 1) 1 content)

abbrev second_id : Bytes
second_id = after [] (compute_post_id (chain_at 1) (address 2) 1 content)

abbrev identified : State
identified = after (fresh 10) (set_identity_contract (chain_at 1) (some (address 3)) (fresh 10))

identified-ok : set_identity_contract (chain_at 1) (some (address 3)) (fresh 10) ≡ ok identified
unfolding set_identity_contract require_address dependencies
identified-ok = refl

abbrev configured : State
configured =
    after identified (set_relationships_contract (chain_at 1) (some (address 4)) identified)

configured-ok :
    set_relationships_contract (chain_at 1) (some (address 4)) identified ≡ ok configured
unfolding set_identity_contract set_relationships_contract require_address dependencies
configured-ok = refl

-- A post of account 1 with an idempotency key.
abbrev first_args : PublishArguments
first_args = record {
  author = some (address 1);
  post_id = some first_id;
  previous_version = none;
  sequence = 1;
  audience = 0;
  audience_id = none;
  epoch = 0;
  envelope = some (1 ∷ 2 ∷ 3 ∷ []);
  content_hash = some content;
  media = [];
  reply_to = none;
  idempotency_key = some (9 ∷ []);
  device = none;
}

-- A reply of account 2 to it.
abbrev reply_args : PublishArguments
reply_args = record first_args {
  author = some (address 2);
  post_id = some second_id;
  reply_to = some first_id;
  idempotency_key = none;
}

abbrev posted : State
posted = after configured (publish (chain_at 2) first_args configured)

posted-ok : publish (chain_at 2) first_args configured ≡ ok posted
unfolding publish check_arguments require_address require_hash check_envelope sha256 optional_bytes
    check_audience validate_media validate_refs requested_reply existing_post publish_version
    require_authorized identity_contract dependencies write_version first_version load_author
    compute_post_id reply_target is_blocked relationships_contract reserve_idempotency_key consume
    set_identity_contract set_relationships_contract u32be u64be u64be_loop is_empty
posted-ok = refl

abbrev replied : State
replied = after posted (publish (chain_at 3) reply_args posted)

replied-ok : publish (chain_at 3) reply_args posted ≡ ok replied
unfolding publish check_arguments require_address require_hash check_envelope sha256 optional_bytes
    check_audience validate_media validate_refs requested_reply existing_post publish_version
    require_authorized identity_contract dependencies write_version first_version load_author
    compute_post_id reply_target is_blocked relationships_contract reserve_idempotency_key consume
    set_identity_contract set_relationships_contract u32be u64be u64be_loop is_empty
replied-ok = refl

abbrev first_record : PostRecord
first_record = record {
  author = address 1;
  sequence = 1;
  version_count = 1;
  latest_version = content;
  state = 0;
  reply_to = none;
  audience = 0;
  created_at = 2;
  updated_at = 2;
}

first_record-ok : mock.get posted.posts first_id ≡ some first_record
unfolding publish check_arguments require_address require_hash check_envelope sha256 optional_bytes
    check_audience validate_media validate_refs requested_reply existing_post publish_version
    require_authorized identity_contract dependencies write_version first_version load_author
    compute_post_id reply_target is_blocked relationships_contract reserve_idempotency_key consume
    set_identity_contract set_relationships_contract u32be u64be u64be_loop is_empty
first_record-ok = refl

abbrev delete_args : LifecycleArguments
delete_args = record {
  author = some (address 1);
  post_id = some first_id;
  version = some content;
  state = 2;
  reason = none;
  replacement_id = none;
  device = none;
}

abbrev removed : State
removed = after replied (set_lifecycle (chain_at 4) delete_args replied)

removed-ok : set_lifecycle (chain_at 4) delete_args replied ≡ ok removed
unfolding publish check_arguments require_address require_hash check_envelope sha256 optional_bytes
    check_audience validate_media validate_refs requested_reply existing_post publish_version
    require_authorized identity_contract dependencies write_version first_version load_author
    compute_post_id reply_target is_blocked relationships_contract reserve_idempotency_key consume
    set_identity_contract set_relationships_contract u32be u64be u64be_loop is_empty set_lifecycle
    require_string replacement
removed-ok = refl

abbrev removed_record : PostRecord
removed_record = record first_record { state = 2; updated_at = 4 }

removed_record-ok : mock.get removed.posts first_id ≡ some removed_record
unfolding publish check_arguments require_address require_hash check_envelope sha256 optional_bytes
    check_audience validate_media validate_refs requested_reply existing_post publish_version
    require_authorized identity_contract dependencies write_version first_version load_author
    compute_post_id reply_target is_blocked relationships_contract reserve_idempotency_key consume
    set_identity_contract set_relationships_contract u32be u64be u64be_loop is_empty set_lifecycle
    require_string replacement
removed_record-ok = refl

key-ok : mock.get posted.idempotency (idempotency_key (address 1) (9 ∷ [])) ≡ some first_id
unfolding publish check_arguments require_address require_hash check_envelope sha256 optional_bytes
    check_audience validate_media validate_refs requested_reply existing_post publish_version
    require_authorized identity_contract dependencies write_version first_version load_author
    compute_post_id reply_target is_blocked relationships_contract reserve_idempotency_key consume
    set_identity_contract set_relationships_contract u32be u64be u64be_loop is_empty
key-ok = refl

abbrev outcome_args : CrossPostArguments
outcome_args = record {
  author = some (address 1);
  idempotency_key = some (9 ∷ []);
  adapter = some (120 ∷ []);
  state = 0;
  external_ref = none;
  post_id = some first_id;
  manifest_hash = none;
  device = none;
}

abbrev reported : State
reported = after posted (record_cross_post (chain_at 3) outcome_args posted)

reported-ok : record_cross_post (chain_at 3) outcome_args posted ≡ ok reported
unfolding publish check_arguments require_address require_hash check_envelope sha256 optional_bytes
    check_audience validate_media validate_refs requested_reply existing_post publish_version
    require_authorized identity_contract dependencies write_version first_version load_author
    compute_post_id reply_target is_blocked relationships_contract reserve_idempotency_key consume
    set_identity_contract set_relationships_contract u32be u64be u64be_loop is_empty set_lifecycle
    require_string replacement record_cross_post require_bytes optional_hash outcome_post
    check_outcome_post same
reported-ok = refl

posted-Reach : Reach (fresh 10) 3 posted
posted-Reach =
    next (chain_at 2)
      (next (chain_at 1)
        (next (chain_at 1) here (Step.sets_identity (some (address 3)) identified-ok))
        (Step.sets_relationships (some (address 4)) configured-ok))
      (Step.publishes first_args posted-ok)

later-Reach : Reach posted 2 removed
later-Reach =
    next (chain_at 4) (next (chain_at 3) here (Step.publishes reply_args replied-ok))
      (Step.sets_lifecycle delete_args removed-ok)

post_keeps_identity_example :
    (rec : PostRecord) × (mock.get removed.posts first_id ≡ some rec) × Follows first_record rec
post_keeps_identity_example = post_keeps_identity first_id first_record later-Reach first_record-ok

bound_key_is_final_example :
    mock.get removed.idempotency (idempotency_key (address 1) (9 ∷ [])) ≡ some first_id
bound_key_is_final_example =
    bound_key_is_final (idempotency_key (address 1) (9 ∷ [])) first_id later-Reach key-ok

bound_key_is_own_post_example :
    (rec : PostRecord) × (mock.get posted.posts first_id ≡ some rec) × (rec.author ≡ address 1)
bound_key_is_own_post_example =
    bound_key_is_own_post 10 (address 1) (9 ∷ []) first_id refl posted-Reach key-ok

numbers_are_gapless_example :
    ((1 ≤ 1) × (1 < (load_author posted (address 1)).next_sequence)) ↔ HasPost posted (address 1) 1
numbers_are_gapless_example = numbers_are_gapless 10 (address 1) 1 posted-Reach (omega arith)

sequence_identifies_post_example : first_id ≡ first_id
sequence_identifies_post_example =
    sequence_identifies_post 10 first_id first_id first_record first_record posted-Reach
      (omega arith) first_record-ok first_record-ok refl refl

succeeded_outcome_is_traceable_example :
    (get_post_by_idempotency_key (some (address 1)) (some (9 ∷ [])) posted ≡ some first_id)
    × ((rec : PostRecord) × (get_post (some first_id) posted ≡ some rec) × (rec.author ≡ address 1))
succeeded_outcome_is_traceable_example =
    succeeded_outcome_is_traceable (chain_at 3) outcome_args posted reported refl reported-ok

full-ok : is_empty (some first_id) ≡ false
unfolding is_empty compute_post_id sha256 u32be u64be u64be_loop
full-ok = refl

publish_reply_is_allowed_example :
    ((is_empty none ≡ true) × Answered (chain_at 3) reply_args posted) ⊎ Kept reply_args posted
publish_reply_is_allowed_example =
    publish_reply_is_allowed (chain_at 3) reply_args posted replied full-ok replied-ok

deleted_post_reverts_example :
    ((reason : String) × (publish (chain_at 5) first_args removed ≡ reverted reason))
    × ((reason : String) × (set_lifecycle (chain_at 5) delete_args removed ≡ reverted reason))
    × ((reason : String) × (react
            (chain_at 5)
            (some (address 2))
            (some first_id)
            none
            1
            false
            removed
          ≡ reverted reason))
deleted_post_reverts_example =
    deleted_post_reverts (chain_at 5) removed first_id removed_record first_args delete_args
      (some (address 2)) none 1 false removed_record-ok refl refl refl
