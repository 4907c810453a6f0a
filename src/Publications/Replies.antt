-- ===== src/Publications/Replies.antt =====
-- Replies are published only where they may be.
use open_social_protocol.Prelude.{
  ◌≡◌, ◌⊎◌, ◌∙◌, inl, inr, true, false, Option, none, some, ◌==◌, arith, Option-cases,
}
use open_social_protocol.Chain.{Bytes, Sdk, Env, Usage, object, empty, ok, >>=-eq-ok}
use open_social_protocol.Chain.Util.{is_empty, value}
use open_social_protocol.Chain.Util.Require.{require_address-ok}
use open_social_protocol.Chain.Actor
use open_social_protocol.Publications.State.{deleted, PostRecord, State}
use open_social_protocol.Publications.Checks.{require_hash, relationships_contract, is_blocked}
use open_social_protocol.Publications.Arguments.{
  PublishArguments, Checked, some_bytes, check_arguments, requested_reply,
}
use open_social_protocol.Publications.Publish.{
  Written, check_reply, existing_post, first_version, new_version, reply_target, write_version,
  publish,
}
use open_social_protocol.Publications.Methods.{get_post}
use open_social_protocol.Publications.Calls.{
  require_hash-value, existing_post-found, ArgumentsChecked, check_arguments-ArgumentsChecked,
  first_version-FirstVersion, new_version-NewVersion,
}
use open_social_protocol.Publications.Effects.{publish_version-written}

module _ ⦃sdk : Sdk⦄ ⦃usage : Usage⦄ where
  open sdk use {get, put, equal, equal_iff}

  -- The relationships contract has answered that the one account does not block the other, or has
  -- given no result object, which the code takes for the same.
  abbrev pub NotBlocked : Env → State → Bytes → Bytes → Type 0
  NotBlocked env s blocker blocked =
      (env.is_blocked (relationships_contract s) blocker blocked ≡ object false)
      ⊎ (env.is_blocked (relationships_contract s) blocker blocked ≡ empty)

  -- The post that the first version of a reply answers.
  pub record Answered (env : Env) (args : PublishArguments) (s : State) : Type 0 where
    pub parent : PostRecord
    pub found : get_post args.reply_to s ≡ some parent
    pub live : (parent.state == deleted) ≡ false
    pub allowed :
        (parent.author ≡ value args.author) ⊎ NotBlocked env s parent.author (value args.author)

  -- The post of the author that an edit changes, which replies to the same post already.
  pub record Kept (args : PublishArguments) (s : State) : Type 0 where
    pub old : PostRecord
    pub found : get_post args.post_id s ≡ some old
    pub own : old.author ≡ value args.author
    pub live : (old.state == deleted) ≡ false
    pub same_reply : some_bytes old.reply_to ≡ some (value args.reply_to)

  record Target (env : Env) (author id : Bytes) (s : State) : Type 0 where
    parent : PostRecord
    found : get s.posts id ≡ some parent
    live : (parent.state == deleted) ≡ false
    allowed : (equal parent.author author ≡ true) ⊎ NotBlocked env s parent.author author

  reply_target-Target :
      (env : Env) (author id : Bytes) (s : State) (o : Option Bytes)
      → reply_target env author (some id) s ≡ ok o
      → Target env author id s
  unfolding reply_target is_blocked
  reply_target-Target env author id s o h = ground arith

  check_reply-same :
      (requested : Bytes) (reply_to : Option Bytes)
      → check_reply (some requested) reply_to ≡ ok tt
      → reply_to ≡ some requested
  unfolding check_reply Actor.same
  check_reply-same requested none h = ground arith
  check_reply-same requested (some parent) h = ground (arith, equal_iff requested parent)

  first_has_no_version :
      (s : State) (id : Bytes) (previous : Option Bytes)
      → existing_post s id previous ≡ ok none
      → is_empty previous ≡ true
  unfolding existing_post
  first_has_no_version s id previous h = ground arith

  requested_reply-value :
      (reply_to requested : Option Bytes)
      → requested_reply reply_to ≡ ok requested
      → is_empty reply_to ≡ false
      → requested ≡ some (value reply_to)
  unfolding requested_reply require_hash
  requested_reply-value reply_to requested h f = ground arith

  first-Answered :
      (env : Env) (args : PublishArguments) (c : Checked) (s : State) (w : Written)
      → ArgumentsChecked args c
      → is_empty args.reply_to ≡ false
      → first_version env args c s ≡ ok w
      → Answered env args s
  unfolding get_post
  first-Answered env args c s w a reply h =
      let x = first_version-FirstVersion env args c s w h in
      let (author_is, _) = require_address-ok args.author "author" c.author a.from in
      let z =
        reply_target-Target env c.author (value args.reply_to) s x.target_author
          (rw (requested_reply-value args.reply_to c.requested a.asked reply) at x.target) in
      record {
        parent = z.parent;
        found = rw reply z.found;
        live = z.live;
        allowed = elim z.allowed [
          | inl own ↦ inl ((equal_iff z.parent.author c.author).0 own ∙ author_is)
          | inr allowed ↦ inr (rw author_is at allowed)
        ];
      }

  edit-Kept :
      (env : Env) (args : PublishArguments) (c : Checked) (old : PostRecord) (s : State)
      (w : Written)
      → ArgumentsChecked args c
      → is_empty args.reply_to ≡ false
      → get s.posts c.id ≡ some old
      → new_version env args c old s ≡ ok w
      → Kept args s
  unfolding get_post
  edit-Kept env args c old s w a reply known h =
      let x = new_version-NewVersion env args c old s w h in
      let (author_is, _) = require_address-ok args.author "author" c.author a.from in
      let (id_is, id_full) = require_hash-value args.post_id "post_id" c.id a.of in
      record {
        old = old;
        found = rw (id_full, ← id_is) known;
        own = (equal_iff old.author c.author).0 x.old_author ∙ author_is;
        live = x.live;
        same_reply =
            check_reply-same (value args.reply_to) (some_bytes old.reply_to)
              (rw (requested_reply-value args.reply_to c.requested a.asked reply) at x.same_reply);
      }

  -- A successful call of `publish` that names a post to reply to is one of two. It is a first version,
  -- the post exists and is not deleted, and its author is the author of the reply, or the relationships
  -- contract answers that they do not block them (or answers without a result object). Or it is an edit
  -- of a post that is the author's, is not deleted, and replies to that post already.
  pub publish_reply_is_allowed :
      (env : Env) (args : PublishArguments) (s t : State)
      → is_empty args.reply_to ≡ false
      → publish env args s ≡ ok t
      → ((is_empty args.previous_version ≡ true) × Answered env args s) ⊎ Kept args s
  unfolding publish write_version
  publish_reply_is_allowed env args s t reply h =
      let (c, checked, after) = >>=-eq-ok (check_arguments env args) _ h in
      let (existing, found, last) =
        >>=-eq-ok (existing_post s c.id args.previous_version) _ after in
      let (w, written, y) = publish_version-written env args c existing s t last in
      let a = check_arguments-ArgumentsChecked env args c checked in
      elim (Option-cases existing) [
        | inl new ↦ inl (
          first_has_no_version s c.id args.previous_version (rw new at found),
          first-Answered env args c s w a reply (rw new at written),
        )
        | inr (old, edit) ↦ inr (
            edit-Kept env args c old s w a reply
              (existing_post-found s c.id args.previous_version old (rw edit at found))
              (rw edit at written))
      ]
