-- ===== src/Reconcile/Runs.antt =====
-- What holds of an attempt to cross-post over any sequence of events.
use text.Mathlib.TextEquality.{eq_iff}
use open_social_protocol.Prelude.{
  ℕ, String, false, Option, none, some, not, ◌&&◌, ◌≡◌, ◌≢◌, ◌↔◌, ◌⊎◌, refl, ◌∙◌, arith, List, [],
  ◌∷◌,
}
use open_social_protocol.Reconcile.Attempt.{
  CrossPostState, draft, submitting, succeeded, partial, unknown, failed, reconcile_required,
  Attempt, ReconcileEvent, retry, host_succeeded, host_failed, koinos_succeeded, koinos_failed,
  koinos_unknown, lookup_found, lookup_missing, new_attempt,
}
use open_social_protocol.Reconcile.Transition.{
  is_ok, is_not_required, is_none, derive_state, conflict, finish, on_retry, on_host_succeeded,
  on_host_failed, on_found, on_koinos_failed, on_koinos_unknown, on_lookup_missing, on_event,
  transition, retry_plan,
}

-- The facts recorded and the statuses agree, and the state is the one that the statuses give, or
-- the attempt is a draft, or it waits for somebody.
pub record IsConsistent (r : Attempt) : Type 0 where
  pub post_known : is_ok r.koinos_status ≡ not (is_none r.post_id)
  pub host_known : is_ok r.host_status ≡ not (is_none r.host_ref)
  pub host_wanted : is_not_required r.host_status ≡ is_none r.host_site
  pub derived :
      (r.state ≡ reconcile_required)
      ⊎ (r.state ≡ derive_state r.host_status r.koinos_status)
      ⊎ ((r.state ≡ draft) × (derive_state r.host_status r.koinos_status ≡ submitting))

-- Everything is published, and a retry has nothing to do.
pub record Settled (r : Attempt) : Type 0 where
  pub posted : is_none r.post_id ≡ false
  pub hosted : (is_none r.host_ref && not (is_none r.host_site)) ≡ false
  pub no_koinos : (retry_plan r).koinos ≡ false
  pub no_host : (retry_plan r).host ≡ false

IsConsistent-Settled :
    (r : Attempt)
    → (r.state ≢ reconcile_required)
    → IsConsistent r
    → (r.state ≡ succeeded) ↔ Settled r
unfolding derive_state retry_plan
IsConsistent-Settled r n c = (λ h. ground arith, λ h. ground arith)

on_retry-IsConsistent :
    (r : Attempt) (at : ℕ) (state : CrossPostState)
    → r.state ≡ state
    → (state ≢ reconcile_required)
    → IsConsistent r
    → IsConsistent (on_retry r at state)
unfolding on_retry derive_state
on_retry-IsConsistent r at draft e n c = ground arith
on_retry-IsConsistent r at submitting e n c = ground arith
on_retry-IsConsistent r at succeeded e n c = ground arith
on_retry-IsConsistent r at partial e n c = ground arith
on_retry-IsConsistent r at unknown e n c = ground arith
on_retry-IsConsistent r at failed e n c = ground arith
on_retry-IsConsistent r at reconcile_required e n c = ground arith

on_host_succeeded-IsConsistent :
    (r : Attempt) (at : ℕ) (ref : String)
    → IsConsistent r
    → IsConsistent (on_host_succeeded r at ref)
unfolding on_host_succeeded conflict finish
on_host_succeeded-IsConsistent r at ref c = ground arith

on_host_failed-IsConsistent :
    (r : Attempt) (at : ℕ) (error : String)
    → IsConsistent r
    → IsConsistent (on_host_failed r at error)
unfolding on_host_failed conflict finish
on_host_failed-IsConsistent r at error c = ground arith

on_found-IsConsistent :
    (r : Attempt) (at : ℕ) (post_id : String) (tx_id error : Option String)
    → IsConsistent r
    → IsConsistent (on_found r at post_id tx_id error)
unfolding on_found conflict finish
on_found-IsConsistent r at post_id tx_id error c = ground arith

on_koinos_failed-IsConsistent :
    (r : Attempt) (at : ℕ) (error : String)
    → IsConsistent r
    → IsConsistent (on_koinos_failed r at error)
unfolding on_koinos_failed finish
on_koinos_failed-IsConsistent r at error c = ground arith

on_koinos_unknown-IsConsistent :
    (r : Attempt) (at : ℕ) (error : Option String)
    → IsConsistent r
    → IsConsistent (on_koinos_unknown r at error)
unfolding on_koinos_unknown finish
on_koinos_unknown-IsConsistent r at error c = ground arith

on_lookup_missing-IsConsistent :
    (r : Attempt) (at : ℕ) → IsConsistent r → IsConsistent (on_lookup_missing r at)
unfolding on_lookup_missing conflict finish
on_lookup_missing-IsConsistent r at c = ground arith

on_retry-post_id :
    (r : Attempt) (at : ℕ) (state : CrossPostState) → (on_retry r at state).post_id ≡ r.post_id
unfolding on_retry
on_retry-post_id r at draft = refl
on_retry-post_id r at submitting = refl
on_retry-post_id r at succeeded = refl
on_retry-post_id r at partial = refl
on_retry-post_id r at unknown = refl
on_retry-post_id r at failed = refl
on_retry-post_id r at reconcile_required = refl

on_found-post_id :
    (r : Attempt) (at : ℕ) (q p : String) (tx_id error : Option String)
    → r.post_id ≡ some p
    → (on_found r at q tx_id error).post_id ≡ some p
unfolding on_found conflict finish
on_found-post_id r at q p tx_id error h = ground (arith, eq_iff p q)

module _ (lower : String → String) where
  on_event-IsConsistent :
      (r : Attempt) (at : ℕ) (event : ReconcileEvent)
      → (r.state ≢ reconcile_required)
      → IsConsistent r
      → IsConsistent (on_event lower r at event)
  unfolding on_event
  on_event-IsConsistent r at retry n c = on_retry-IsConsistent r at r.state refl n c
  on_event-IsConsistent r at (host_succeeded ref) n c = on_host_succeeded-IsConsistent r at ref c
  on_event-IsConsistent r at (host_failed error) n c = on_host_failed-IsConsistent r at error c
  on_event-IsConsistent r at (koinos_succeeded tx_id post_id) n c =
      on_found-IsConsistent r at (lower post_id) (some tx_id) none c
  on_event-IsConsistent r at (lookup_found post_id tx_id) n c =
      on_found-IsConsistent r at (lower post_id) tx_id r.last_error c
  on_event-IsConsistent r at (koinos_failed error) n c = on_koinos_failed-IsConsistent r at error c
  on_event-IsConsistent r at (koinos_unknown error) n c =
      on_koinos_unknown-IsConsistent r at error c
  on_event-IsConsistent r at lookup_missing n c = on_lookup_missing-IsConsistent r at c

  transition-IsConsistent :
      (r : Attempt) (at : ℕ) (event : ReconcileEvent)
      → IsConsistent r
      → IsConsistent (transition lower r at event)
  unfolding transition
  transition-IsConsistent r at event c = ground (arith, on_event-IsConsistent r at event)

  on_event-post_id :
      (r : Attempt) (at : ℕ) (event : ReconcileEvent) (post_id : String)
      → r.post_id ≡ some post_id
      → (on_event lower r at event).post_id ≡ some post_id
  unfolding on_event on_host_succeeded on_host_failed on_found on_koinos_failed on_koinos_unknown
      on_lookup_missing conflict finish
  on_event-post_id r at retry p h = on_retry-post_id r at r.state ∙ h
  on_event-post_id r at (host_succeeded ref) p h = ground arith
  on_event-post_id r at (host_failed error) p h = ground arith
  on_event-post_id r at (koinos_succeeded tx_id q) p h =
      on_found-post_id r at (lower q) p (some tx_id) none h
  on_event-post_id r at (lookup_found q tx_id) p h =
      on_found-post_id r at (lower q) p tx_id r.last_error h
  on_event-post_id r at (koinos_failed error) p h = ground arith
  on_event-post_id r at (koinos_unknown error) p h = ground arith
  on_event-post_id r at lookup_missing p h = ground arith

  -- Events one after another, each with its time.
  abbrev pub run : Attempt → List (ℕ × ReconcileEvent) → Attempt
  run r [] = r
  run r ((at, event) ∷ events) = run (transition lower r at event) events

  run-IsConsistent :
      (r : Attempt) (events : List (ℕ × ReconcileEvent))
      → IsConsistent r
      → IsConsistent (run r events)
  run-IsConsistent r [] c = c
  run-IsConsistent r ((at, event) ∷ events) c =
      run-IsConsistent (transition lower r at event) events (transition-IsConsistent r at event c)

  -- Once a post id is recorded, no sequence of events removes it or puts another in its place, and a
  -- retry never publishes on Koinos again.
  pub run_keeps_post_id :
      (r : Attempt) (post_id : String) (events : List (ℕ × ReconcileEvent))
      → r.post_id ≡ some post_id
      → ((run r events).post_id ≡ some post_id) × ((retry_plan (run r events)).koinos ≡ false)
  unfolding transition retry_plan
  run_keeps_post_id r p [] h = (h, rw h refl)
  run_keeps_post_id r p ((at, event) ∷ events) h =
      run_keeps_post_id (transition lower r at event) p events
        (ground (arith, on_event-post_id r at event p h))

  transition_waits :
      (r : Attempt) (at : ℕ) (event : ReconcileEvent)
      → r.state ≡ reconcile_required
      → transition lower r at event ≡ r
  unfolding transition
  transition_waits r at event h = ground arith

  -- No sequence of events leaves `reconcile_required`, or changes anything else of the record.
  pub run_reconcile_required :
      (r : Attempt) (events : List (ℕ × ReconcileEvent))
      → r.state ≡ reconcile_required
      → run r events ≡ r
  run_reconcile_required r [] h = refl
  run_reconcile_required r ((at, event) ∷ events) h =
      rw (transition_waits r at event h) (run_reconcile_required r events h)

  new_attempt-IsConsistent :
      (key id : String) (site : Option String) (audience now : ℕ)
      → IsConsistent (new_attempt key id site audience now)
  unfolding new_attempt derive_state
  new_attempt-IsConsistent key id none audience now = ground arith
  new_attempt-IsConsistent key id (some site) audience now = ground arith

  -- After any sequence of events on a new attempt, unless it waits for somebody, its state is
  -- `succeeded` exactly when the post id is known, the host ref is known too where there is a host
  -- site, and a retry would publish nothing on either side.
  pub run_new_succeeded :
      (key id : String) (site : Option String) (audience now : ℕ)
      (events : List (ℕ × ReconcileEvent))
      → ((run (new_attempt key id site audience now) events).state ≢ reconcile_required)
      → ((run (new_attempt key id site audience now) events).state ≡ succeeded)
        ↔ Settled (run (new_attempt key id site audience now) events)
  run_new_succeeded key id site audience now events n =
      IsConsistent-Settled (run (new_attempt key id site audience now) events) n (
        run-IsConsistent (new_attempt key id site audience now) events
          (new_attempt-IsConsistent key id site audience now))
