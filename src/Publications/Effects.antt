-- ===== src/Publications/Effects.antt =====
-- The calls of the publications contract as a step relation, and the three ways in which a call
-- changes its maps.
use open_social_protocol.Prelude.{
  ℕ, suc, ◌≡◌, ◌∙◌, refl, Bool, false, Option, none, some, ◌==◌, arith, length,
}
use open_social_protocol.Chain.{Bytes, Sdk, Env, Usage, ok, >>=-eq-ok}
use open_social_protocol.Chain.Util.Require.{require_address-ok}
use open_social_protocol.Publications.State.{deleted, PostRecord, State}
use open_social_protocol.Chain.Actor.{require_authorized}
use open_social_protocol.Publications.Checks.{
  identity_contract, has, set_token_contract, set_identity_contract, set_relationships_contract,
  load_author, consume,
}
use open_social_protocol.Publications.Arguments.{PublishArguments, Checked, check_arguments}
use open_social_protocol.Publications.Publish.{
  Written, existing_post, next_author, capability, write_version, publish_version, publish,
}
use open_social_protocol.Publications.Methods.{
  LifecycleArguments, CrossPostArguments, set_lifecycle, react, distribute_keys, record_cross_post,
}
use open_social_protocol.Publications.Calls.{
  bind_key, is_bound, SameMaps, consume-SameMaps, set_token_contract-SameMaps,
  set_identity_contract-SameMaps, set_relationships_contract-SameMaps, react-SameMaps,
  distribute_keys-SameMaps, record_cross_post-SameMaps, first_version-FirstVersion,
  new_version-NewVersion, check_arguments-ArgumentsChecked, set_lifecycle-Lifecycle,
}

module _ ⦃sdk : Sdk⦄ ⦃usage : Usage⦄ where
  open sdk use {get, put, equal, equal_iff}

  -- One successful call of a method that writes.
  pub data Step (env : Env) (s t : State) : Type 0 where
    sets_token : (address : Option Bytes) → set_token_contract env address s ≡ ok t → Step env s t
    sets_identity :
        (address : Option Bytes) → set_identity_contract env address s ≡ ok t → Step env s t
    sets_relationships :
        (address : Option Bytes) → set_relationships_contract env address s ≡ ok t → Step env s t
    publishes : (args : PublishArguments) → publish env args s ≡ ok t → Step env s t
    sets_lifecycle : (args : LifecycleArguments) → set_lifecycle env args s ≡ ok t → Step env s t
    reacts :
        (actor id device : Option Bytes) (kind : ℕ) (removes : Bool)
        → react env actor id device kind removes s ≡ ok t
        → Step env s t
    distributes :
        (author audience : Option Bytes) (epoch : ℕ) (packages device : Option Bytes)
        → distribute_keys env author audience epoch packages device s ≡ ok t
        → Step env s t
    records : (args : CrossPostArguments) → record_cross_post env args s ≡ ok t → Step env s t

  -- A number of calls, each with its own view of the chain.
  pub data Reach (s : State) : ℕ → State → Type 0 where
    here : Reach s 0 s
    next : {n : ℕ} {t u : State} (env : Env) → Reach s n t → Step env t u → Reach s (suc n) u

  -- A new post of an author.
  pub record Created (env : Env) (s t : State) : Type 0 where
    pub author : Bytes
    pub id : Bytes
    pub key : Option Bytes
    pub rec : PostRecord
    pub address : length author ≡ 25
    pub new : has (get s.posts id) ≡ false
    pub author_is : rec.author ≡ author
    pub sequence_is : rec.sequence ≡ (load_author s author).next_sequence
    pub free : is_bound author key s.idempotency ≡ false
    pub posts : t.posts ≡ put s.posts id rec
    pub authors : t.authors ≡ put s.authors author (next_author env.now (load_author s author))
    pub idempotency : t.idempotency ≡ bind_key author key id s.idempotency

  -- What an edit or a change of lifecycle leaves of a post.
  pub record SamePost (old rec : PostRecord) : Type 0 where
    pub author : rec.author ≡ old.author
    pub sequence : rec.sequence ≡ old.sequence
    pub reply_to : rec.reply_to ≡ old.reply_to
    pub audience : rec.audience ≡ old.audience
    pub created_at : rec.created_at ≡ old.created_at

  pub SamePost-refl : (rec : PostRecord) → SamePost rec rec
  SamePost-refl rec = record {
    author = refl;
    sequence = refl;
    reply_to = refl;
    audience = refl;
    created_at = refl;
  }

  -- Another record of a post of the author, which is not deleted.
  pub record Changed (s t : State) : Type 0 where
    pub author : Bytes
    pub id : Bytes
    pub key : Option Bytes
    pub old : PostRecord
    pub rec : PostRecord
    pub address : length author ≡ 25
    pub found : get s.posts id ≡ some old
    pub owner : old.author ≡ author
    pub live : (old.state == deleted) ≡ false
    pub kept : SamePost old rec
    pub free : is_bound author key s.idempotency ≡ false
    pub posts : t.posts ≡ put s.posts id rec
    pub authors : t.authors ≡ s.authors
    pub idempotency : t.idempotency ≡ bind_key author key id s.idempotency

  pub data Effect (env : Env) (s t : State) : Type 0 where
    unchanged : SameMaps s t → Effect env s t
    created : Created env s t → Effect env s t
    changed : Changed s t → Effect env s t

  -- The part of `publish` after the checks of its arguments writes a version, and charges for it.
  pub publish_version-written :
      (env : Env) (args : PublishArguments) (c : Checked) (existing : Option PostRecord)
      (s t : State)
      → publish_version env args c existing s ≡ ok t
      → (w : Written) × (write_version env args c existing s ≡ ok w) × SameMaps w.state t
  unfolding publish_version
  publish_version-written env args c existing s t h =
      let (signer, _, after) =
        >>=-eq-ok
          (require_authorized env (identity_contract s) c.author args.device
            (capability existing c.requested))
          _ h in
      let (w, written, last) = >>=-eq-ok (write_version env args c existing s) _ after in
      let (s', paid, end) = >>=-eq-ok (consume c.author w.state) _ last in
      let y = consume-SameMaps c.author w.state s' paid in
      (w, written, ground (arith, y.posts, y.authors, y.idempotency))

  version-Effect :
      (env : Env) (args : PublishArguments) (c : Checked) (existing : Option PostRecord)
      (s t : State)
      → length c.author ≡ 25
      → existing_post s c.id args.previous_version ≡ ok existing
      → publish_version env args c existing s ≡ ok t
      → Effect env s t
  unfolding write_version existing_post
  version-Effect env args c none s t l f h =
      let (w, written, y) = publish_version-written env args c none s t h in
      let x = first_version-FirstVersion env args c s w written in
      created (record {
        author = c.author;
        id = c.id;
        key = c.key;
        rec = w.rec;
        address = l;
        new = x.new;
        author_is = x.author_is;
        sequence_is = x.sequence_is;
        free = x.free;
        posts = y.posts ∙ x.posts;
        authors = y.authors ∙ x.authors;
        idempotency = y.idempotency ∙ x.idempotency;
      })
  version-Effect env args c (some old) s t l f h =
      let (w, written, y) = publish_version-written env args c (some old) s t h in
      let x = new_version-NewVersion env args c old s w written in
      changed (record {
        author = c.author;
        id = c.id;
        key = c.key;
        old = old;
        rec = w.rec;
        address = l;
        found = ground arith;
        owner = (equal_iff old.author c.author).0 x.old_author;
        live = x.live;
        kept = record {
          author = x.author_is;
          sequence = x.sequence_is;
          reply_to = x.reply_is;
          audience = x.audience_is;
          created_at = x.created_is;
        };
        free = x.free;
        posts = y.posts ∙ x.posts;
        authors = y.authors ∙ x.authors;
        idempotency = y.idempotency ∙ x.idempotency;
      })

  publish-Effect :
      (env : Env) (args : PublishArguments) (s t : State)
      → publish env args s ≡ ok t
      → Effect env s t
  unfolding publish
  publish-Effect env args s t h =
      let (c, checked, after) = >>=-eq-ok (check_arguments env args) _ h in
      let (existing, found, last) =
        >>=-eq-ok (existing_post s c.id args.previous_version) _ after in
      version-Effect env args c existing s t
        (require_address-ok args.author "author" c.author
          (check_arguments-ArgumentsChecked env args c checked).from).1
        found last

  set_lifecycle-Effect :
      (env : Env) (args : LifecycleArguments) (s t : State)
      → set_lifecycle env args s ≡ ok t
      → Effect env s t
  set_lifecycle-Effect env args s t h =
      let x = set_lifecycle-Lifecycle env args s t h in
      changed (record {
        author = x.author;
        id = x.id;
        key = none;
        old = x.old;
        rec = record x.old { state = args.state; updated_at = env.now };
        address = (require_address-ok args.author "author" x.author x.from).1;
        found = x.found;
        owner = (equal_iff x.old.author x.author).0 x.owner;
        live = x.live;
        kept = record {
          author = refl;
          sequence = refl;
          reply_to = refl;
          audience = refl;
          created_at = refl;
        };
        free = refl;
        posts = x.posts;
        authors = x.authors;
        idempotency = x.idempotency;
      })

  -- Each call leaves the maps alone, adds one post, or changes one post.
  pub Step-Effect : (env : Env) (s t : State) → Step env s t → Effect env s t
  Step-Effect env s t (sets_token address e) =
      unchanged (set_token_contract-SameMaps env address s t e)
  Step-Effect env s t (sets_identity address e) =
      unchanged (set_identity_contract-SameMaps env address s t e)
  Step-Effect env s t (sets_relationships address e) =
      unchanged (set_relationships_contract-SameMaps env address s t e)
  Step-Effect env s t (publishes args e) = publish-Effect env args s t e
  Step-Effect env s t (sets_lifecycle args e) = set_lifecycle-Effect env args s t e
  Step-Effect env s t (reacts actor id device kind removes e) =
      unchanged (react-SameMaps env actor id device kind removes s t e)
  Step-Effect env s t (distributes author audience epoch packages device e) =
      unchanged (distribute_keys-SameMaps env author audience epoch packages device s t e)
  Step-Effect env s t (records args e) = unchanged (record_cross_post-SameMaps env args s t e)
