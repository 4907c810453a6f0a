-- ===== src/Publications/Outcomes.antt =====
-- What a recorded cross-post outcome can be traced back to.
use open_social_protocol.Prelude.{
  ℕ, ◌≡◌, ◌∙◌, ap, String, Bool, true, false, Option, none, some, ◌==◌, not, ◌||◌, arith,
}
use open_social_protocol.Chain.{Bytes, Sdk, Env, Usage, ok}
use open_social_protocol.Chain.Util.{require_address, require_bytes, is_empty, value}
use open_social_protocol.Chain.Util.Require.{require_address-ok}
use open_social_protocol.Chain.Actor
use open_social_protocol.Publications.State.{
  succeeded, max_idempotency_key_bytes, PostRecord, State,
}
use open_social_protocol.Publications.Checks.{require_hash, has, idempotency_key}
use open_social_protocol.Publications.Methods.{
  CrossPostArguments, record_cross_post, outcome_post, check_outcome_post, bound_post,
  get_post_by_idempotency_key, get_post,
}
use open_social_protocol.Publications.Calls.{record_cross_post-Recorded}

require_bytes-value :
    (v : Option Bytes) (max : ℕ) (what : String) (a : Bytes)
    → require_bytes v max what ≡ ok a
    → (a ≡ value v) × (is_empty v ≡ false)
unfolding require_bytes
require_bytes-value v max what a h = ground arith

require_address-full :
    (v : Option Bytes) (what : String) (a : Bytes)
    → require_address v what ≡ ok a
    → is_empty v ≡ false
unfolding require_address
require_address-full v what a h = ground arith

module _ ⦃sdk : Sdk⦄ ⦃usage : Usage⦄ where
  open sdk use {get, put, equal, equal_iff}

  record CheckedPost (id : Bytes) (bound : Option Bytes) (author : Bytes) (s : State) : Type 0 where
    rec : PostRecord
    found : get s.posts id ≡ some rec
    owner : equal rec.author author ≡ true
    traced : (not (has bound) || Actor.same bound (some id)) ≡ true

  check_outcome_post-CheckedPost :
      (id : Bytes) (bound : Option Bytes) (author : Bytes) (s : State)
      → check_outcome_post (some id) bound author s ≡ ok tt
      → CheckedPost id bound author s
  unfolding check_outcome_post
  check_outcome_post-CheckedPost id bound author s h = ground arith

  bound_post-some : (post : Option Bytes) → has (bound_post post) ≡ true → bound_post post ≡ post
  unfolding is_empty
  bound_post-some none h = ground arith
  bound_post-some (some b) h = ground arith

  -- What a call for a succeeded outcome has found.
  traced_outcome :
      (author key id : Bytes) (post : Option Bytes) (s : State)
      → check_outcome_post (some id) (bound_post post) author s ≡ ok tt
      → has (bound_post post) ≡ true
      → (post ≡ some id)
        × ((rec : PostRecord) × (get s.posts id ≡ some rec) × (rec.author ≡ author))
  unfolding Actor.same
  traced_outcome author key id none s h hb = ground arith
  traced_outcome author key id (some bound) s h hb =
      let e = bound_post-some (some bound) hb in
      let x = check_outcome_post-CheckedPost id (some bound) author s (rw e at h) in
      (
        ap some ((equal_iff bound id).0 x.traced),
        (x.rec, x.found, (equal_iff x.rec.author author).0 x.owner),
      )

  outcome_post-value :
      (post_id id : Option Bytes)
      → outcome_post post_id ≡ ok id
      → has id ≡ true
      → (id ≡ some (value post_id)) × (is_empty post_id ≡ false)
  unfolding outcome_post require_hash
  outcome_post-value post_id id h hb = ground arith

  succeeded_is :
      (state : ℕ) (b : Bool) → state ≡ succeeded → (not (state == succeeded) || b) ≡ true → b ≡ true
  succeeded_is state b st h = ground arith

  -- A `succeeded` outcome is recorded only for a post that exists and is the author's, and to which
  -- the author's idempotency key is bound.
  pub succeeded_outcome_is_traceable :
      (env : Env) (args : CrossPostArguments) (s t : State)
      → args.state ≡ succeeded
      → record_cross_post env args s ≡ ok t
      → (get_post_by_idempotency_key args.author args.idempotency_key s ≡ some (value args.post_id))
        × ((rec : PostRecord) × (get_post args.post_id s ≡ some rec)
            × (rec.author ≡ value args.author))
  unfolding get_post_by_idempotency_key get_post outcome_post
  succeeded_outcome_is_traceable env args s t st h =
      let x = record_cross_post-Recorded env args s t h in
      let (id_is, id_full) =
        outcome_post-value args.post_id x.id x.of (succeeded_is args.state _ st x.given) in
      let (author_is, _) = require_address-ok args.author "author" x.author x.from in
      let (key_is, key_full) =
        require_bytes-value args.idempotency_key max_idempotency_key_bytes "idempotency_key" x.key
          x.key_is in
      let (bound, (rec, found, own)) =
        traced_outcome x.author x.key (value args.post_id)
          (get s.idempotency (idempotency_key x.author x.key)) s (rw id_is at x.checked)
          (succeeded_is args.state _ st x.bound) in
      (
        rw
            (
              require_address-full args.author "author" x.author x.from,
              key_full,
              ← author_is,
              ← key_is,
            )
            bound,
        (rec, rw id_full found, own ∙ author_is),
      )
