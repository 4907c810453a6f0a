-- ===== src/Publications/Deleted.antt =====
-- What reverts on a deleted post.
use open_social_protocol.Prelude.{
  ℕ, ◌≡◌, ◌≢◌, ◌∙◌, inl, inr, refl, sym, ap, String, Bool, true, false, Option, some, ◌==◌, arith,
  Option-cases,
}
use open_social_protocol.Chain.{Bytes, Sdk, Env, Usage, Result, ok, reverted, >>=-eq-ok}
use open_social_protocol.Publications.State.{deleted, PostRecord, State}
use open_social_protocol.Publications.Checks.{require_hash, has}
use open_social_protocol.Publications.Arguments.{PublishArguments, check_arguments}
use open_social_protocol.Publications.Publish.{existing_post, write_version, publish}
use open_social_protocol.Publications.Methods.{LifecycleArguments, set_lifecycle, react}
use open_social_protocol.Publications.Calls.{
  require_hash-value, existing_post-found, check_arguments-ArgumentsChecked,
  first_version-FirstVersion, new_version-NewVersion, set_lifecycle-Lifecycle,
}
use open_social_protocol.Publications.Effects.{publish_version-written}
use open_social_protocol.Chain.Lookup.{some_injective}

module _ ⦃sdk : Sdk⦄ ⦃usage : Usage⦄ where
  open sdk use {get, put, equal, equal_iff}

  reverts :
      {A : Type 0} (r : Result A) → ((x : A) → r ≢ ok x) → (reason : String) × (r ≡ reverted reason)
  reverts (reverted reason) h = (reason, refl)
  reverts (ok x) h = absurd (h x refl)

  is_deleted : (state : ℕ) → state ≡ deleted → (state == deleted) ≢ false
  is_deleted state d h = ground arith

  publish_not_deleted :
      (env : Env) (args : PublishArguments) (s : State) (id : Bytes) (rec : PostRecord)
      → get s.posts id ≡ some rec
      → rec.state ≡ deleted
      → args.post_id ≡ some id
      → (t : State) → publish env args s ≢ ok t
  unfolding publish write_version
  publish_not_deleted env args s id rec h d p t e =
      let (c, checked, after) = >>=-eq-ok (check_arguments env args) _ e in
      let (existing, found, last) =
        >>=-eq-ok (existing_post s c.id args.previous_version) _ after in
      let (w, written, y) = publish_version-written env args c existing s t last in
      let (id_is, _) =
        require_hash-value args.post_id "post_id" c.id
          ((check_arguments-ArgumentsChecked env args c checked).of) in
      elim (Option-cases existing) [
        | inl new ↦
            let x = first_version-FirstVersion env args c s w (rw new at written) in
            true_is_not-false (sym (ap has h) ∙ (rw (id_is, p) at x.new))
        | inr (old, edit) ↦
            let x = new_version-NewVersion env args c old s w (rw edit at written) in
            let f = existing_post-found s c.id args.previous_version old (rw edit at found) in
            is_deleted rec.state d (rw (← some_injective (sym (rw (id_is, p) at f) ∙ h)) x.live)
      ]
    where
      true_is_not-false : true ≢ false
      true_is_not-false e = ground arith

  set_lifecycle_not_deleted :
      (env : Env) (args : LifecycleArguments) (s : State) (id : Bytes) (rec : PostRecord)
      → get s.posts id ≡ some rec
      → rec.state ≡ deleted
      → args.post_id ≡ some id
      → (t : State) → set_lifecycle env args s ≢ ok t
  set_lifecycle_not_deleted env args s id rec h d p t e =
      let x = set_lifecycle-Lifecycle env args s t e in
      let (id_is, _) = require_hash-value args.post_id "post_id" x.id x.of in
      is_deleted rec.state d (rw (← some_injective (sym (rw (id_is, p) at x.found) ∙ h)) x.live)

  react_not_deleted :
      (env : Env) (actor device : Option Bytes) (kind : ℕ) (removes : Bool) (s : State) (id : Bytes)
      (rec : PostRecord)
      → get s.posts id ≡ some rec
      → rec.state ≡ deleted
      → (t : State) → react env actor (some id) device kind removes s ≢ ok t
  unfolding react require_hash
  react_not_deleted env actor device kind removes s id rec h d t e = ground arith

  -- Nothing changes a deleted post: an edit of it or a first version under its id, a change of its
  -- lifecycle and a reaction to it all revert.
  pub deleted_post_reverts :
      (env : Env) (s : State) (id : Bytes) (rec : PostRecord) (version : PublishArguments)
      (change : LifecycleArguments) (actor device : Option Bytes) (kind : ℕ) (removes : Bool)
      → get s.posts id ≡ some rec
      → rec.state ≡ deleted
      → version.post_id ≡ some id
      → change.post_id ≡ some id
      → ((reason : String) × (publish env version s ≡ reverted reason))
        × ((reason : String) × (set_lifecycle env change s ≡ reverted reason))
        × ((reason : String) × (react env actor (some id) device kind removes s ≡ reverted reason))
  deleted_post_reverts env s id rec version change actor device kind removes h d p q = (
    reverts (publish env version s) (publish_not_deleted env version s id rec h d p),
    reverts (set_lifecycle env change s) (set_lifecycle_not_deleted env change s id rec h d q),
    reverts (react env actor (some id) device kind removes s)
        (react_not_deleted env actor device kind removes s id rec h d),
  )
