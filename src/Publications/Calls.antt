-- ===== src/Publications/Calls.antt =====
-- What a successful call of each method has found, and what it writes.
use open_social_protocol.Prelude.{
  String, ℕ, ◌≡◌, Bool, true, false, Option, none, some, ◌||◌, ◌==◌, not, arith,
}
use open_social_protocol.Chain.{Bytes, Sdk, Env, Usage, ok, add32}
use open_social_protocol.Chain.Util.{is_empty, require_address, require_bytes, value}
use open_social_protocol.Publications.State.{
  deleted, succeeded, max_idempotency_key_bytes, PostRecord, State,
}
use open_social_protocol.Publications.Checks.{
  require_hash, has, optional_bytes, idempotency_key, compute_post_id, set_token_contract,
  set_identity_contract, set_relationships_contract, consume, load_author, reserve_idempotency_key,
}
use open_social_protocol.Publications.Arguments.{
  some_bytes, PublishArguments, requested_reply, Checked, check_arguments,
}
use open_social_protocol.Publications.Publish.{
  existing_post, check_reply, Written, next_author, reply_target, first_version, new_version,
}
use open_social_protocol.Publications.Methods.{
  LifecycleArguments, CrossPostArguments, set_lifecycle, react, distribute_keys, record_cross_post,
  outcome_post, check_outcome_post, bound_post,
}

pub require_hash-value :
    (v : Option Bytes) (what : String) (a : Bytes)
    → require_hash v what ≡ ok a
    → (a ≡ value v) × (is_empty v ≡ false)
unfolding require_hash
require_hash-value v what a h = ground arith

module _ ⦃sdk : Sdk⦄ ⦃usage : Usage⦄ where
  open sdk use {get, put, equal}

  -- The map of the idempotency keys after a key is bound, if there is one.
  abbrev pub bind_key : Bytes → Option Bytes → Bytes → sdk.Map Bytes → sdk.Map Bytes
  bind_key author none id m = m
  bind_key author (some key) id m = put m (idempotency_key author key) id

  abbrev pub is_bound : Bytes → Option Bytes → sdk.Map Bytes → Bool
  is_bound author none m = false
  is_bound author (some key) m = has (get m (idempotency_key author key))

  -- The three maps are as they were.
  pub record SameMaps (s t : State) : Type 0 where
    pub posts : t.posts ≡ s.posts
    pub authors : t.authors ≡ s.authors
    pub idempotency : t.idempotency ≡ s.idempotency

  pub consume-SameMaps : (a : Bytes) (s t : State) → consume a s ≡ ok t → SameMaps s t
  unfolding consume
  consume-SameMaps a s t h = ground arith

  pub set_token_contract-SameMaps :
      (env : Env) (address : Option Bytes) (s t : State)
      → set_token_contract env address s ≡ ok t
      → SameMaps s t
  unfolding set_token_contract
  set_token_contract-SameMaps env address s t h = ground arith

  pub set_identity_contract-SameMaps :
      (env : Env) (address : Option Bytes) (s t : State)
      → set_identity_contract env address s ≡ ok t
      → SameMaps s t
  unfolding set_identity_contract
  set_identity_contract-SameMaps env address s t h = ground arith

  pub set_relationships_contract-SameMaps :
      (env : Env) (address : Option Bytes) (s t : State)
      → set_relationships_contract env address s ≡ ok t
      → SameMaps s t
  unfolding set_relationships_contract
  set_relationships_contract-SameMaps env address s t h = ground arith

  pub react-SameMaps :
      (env : Env) (actor id device : Option Bytes) (kind : ℕ) (removes : Bool) (s t : State)
      → react env actor id device kind removes s ≡ ok t
      → SameMaps s t
  unfolding react consume
  react-SameMaps env actor id device kind true s t h = ground arith
  react-SameMaps env actor id device kind false s t h = ground arith

  pub distribute_keys-SameMaps :
      (env : Env) (author audience : Option Bytes) (epoch : ℕ) (packages device : Option Bytes)
      (s t : State)
      → distribute_keys env author audience epoch packages device s ≡ ok t
      → SameMaps s t
  unfolding distribute_keys
  distribute_keys-SameMaps env author audience epoch packages device s t h = ground arith

  pub record_cross_post-SameMaps :
      (env : Env) (args : CrossPostArguments) (s t : State)
      → record_cross_post env args s ≡ ok t
      → SameMaps s t
  unfolding record_cross_post
  record_cross_post-SameMaps env args s t h = ground arith

  -- A post of the author, with its sequence number, under a new id.
  pub record FirstVersion (env : Env) (args : PublishArguments) (c : Checked) (s : State)
      (w : Written) : Type 0 where
    pub new : has (get s.posts c.id) ≡ false
    pub author_is : w.rec.author ≡ c.author
    pub sequence_is : w.rec.sequence ≡ (load_author s c.author).next_sequence
    pub sequence_sent : args.sequence ≡ w.rec.sequence
    pub reply_is : w.rec.reply_to ≡ c.requested
    pub computed : Bytes
    pub computed_is : compute_post_id env c.author args.sequence c.content_hash ≡ ok computed
    pub id_is : equal computed c.id ≡ true
    pub target_author : Option Bytes
    pub target : reply_target env c.author c.requested s ≡ ok target_author
    pub free : is_bound c.author c.key s.idempotency ≡ false
    pub posts : w.state.posts ≡ put s.posts c.id w.rec
    pub authors :
        w.state.authors ≡ put s.authors c.author (next_author env.now (load_author s c.author))
    pub idempotency : w.state.idempotency ≡ bind_key c.author c.key c.id s.idempotency

  pub first_version-FirstVersion :
      (env : Env) (args : PublishArguments) (c : Checked) (s : State) (w : Written)
      → first_version env args c s ≡ ok w
      → FirstVersion env args c s w
  unfolding first_version reserve_idempotency_key
  first_version-FirstVersion env args c s w h = ground arith

  -- An edit keeps what the first version fixed.
  pub record NewVersion (args : PublishArguments) (c : Checked) (old : PostRecord) (s : State)
      (w : Written) : Type 0 where
    pub old_author : equal old.author c.author ≡ true
    pub live : (old.state == deleted) ≡ false
    pub latest : equal (value args.previous_version) old.latest_version ≡ true
    pub same_reply : check_reply c.requested (some_bytes old.reply_to) ≡ ok tt
    pub author_is : w.rec.author ≡ old.author
    pub sequence_is : w.rec.sequence ≡ old.sequence
    pub reply_is : w.rec.reply_to ≡ old.reply_to
    pub audience_is : w.rec.audience ≡ old.audience
    pub state_is : w.rec.state ≡ old.state
    pub created_is : w.rec.created_at ≡ old.created_at
    pub version_is : w.rec.version_count ≡ add32 old.version_count 1
    pub free : is_bound c.author c.key s.idempotency ≡ false
    pub posts : w.state.posts ≡ put s.posts c.id w.rec
    pub authors : w.state.authors ≡ s.authors
    pub idempotency : w.state.idempotency ≡ bind_key c.author c.key c.id s.idempotency

  pub new_version-NewVersion :
      (env : Env) (args : PublishArguments) (c : Checked) (old : PostRecord) (s : State)
      (w : Written)
      → new_version env args c old s ≡ ok w
      → NewVersion args c old s w
  unfolding new_version reserve_idempotency_key
  new_version-NewVersion env args c old s w h = ground arith

  pub record ArgumentsChecked (args : PublishArguments) (c : Checked) : Type 0 where
    pub from : require_address args.author "author" ≡ ok c.author
    pub of : require_hash args.post_id "post_id" ≡ ok c.id
    pub hash_is : require_hash args.content_hash "content_hash" ≡ ok c.content_hash
    pub key_is :
        optional_bytes args.idempotency_key max_idempotency_key_bytes "idempotency key" ≡ ok c.key
    pub asked : requested_reply args.reply_to ≡ ok c.requested

  pub check_arguments-ArgumentsChecked :
      (env : Env) (args : PublishArguments) (c : Checked)
      → check_arguments env args ≡ ok c
      → ArgumentsChecked args c
  unfolding check_arguments
  check_arguments-ArgumentsChecked env args c h = ground arith

  pub record Lifecycle (env : Env) (args : LifecycleArguments) (s t : State) : Type 0 where
    pub author : Bytes
    pub id : Bytes
    pub old : PostRecord
    pub from : require_address args.author "author" ≡ ok author
    pub of : require_hash args.post_id "post_id" ≡ ok id
    pub found : get s.posts id ≡ some old
    pub owner : equal old.author author ≡ true
    pub live : (old.state == deleted) ≡ false
    pub posts : t.posts ≡ put s.posts id (record old { state = args.state; updated_at = env.now })
    pub authors : t.authors ≡ s.authors
    pub idempotency : t.idempotency ≡ s.idempotency

  pub set_lifecycle-Lifecycle :
      (env : Env) (args : LifecycleArguments) (s t : State)
      → set_lifecycle env args s ≡ ok t
      → Lifecycle env args s t
  unfolding set_lifecycle
  set_lifecycle-Lifecycle env args s t h = ground arith

  pub record Recorded (env : Env) (args : CrossPostArguments) (s : State) : Type 0 where
    pub author : Bytes
    pub key : Bytes
    pub id : Option Bytes
    pub from : require_address args.author "author" ≡ ok author
    pub key_is :
        require_bytes args.idempotency_key max_idempotency_key_bytes "idempotency_key" ≡ ok key
    pub of : outcome_post args.post_id ≡ ok id
    pub given : (not (args.state == succeeded) || has id) ≡ true
    pub checked :
        check_outcome_post id (bound_post (get s.idempotency (idempotency_key author key))) author s
        ≡ ok tt
    pub bound :
        (not (args.state == succeeded)
          || has (bound_post (get s.idempotency (idempotency_key author key))))
        ≡ true

  pub record_cross_post-Recorded :
      (env : Env) (args : CrossPostArguments) (s t : State)
      → record_cross_post env args s ≡ ok t
      → Recorded env args s
  unfolding record_cross_post
  record_cross_post-Recorded env args s t h = ground arith

  -- An edit has found the post that it is of.
  pub existing_post-found :
      (s : State) (id : Bytes) (previous : Option Bytes) (old : PostRecord)
      → existing_post s id previous ≡ ok (some old)
      → get s.posts id ≡ some old
  unfolding existing_post
  existing_post-found s id previous old h = ground arith
