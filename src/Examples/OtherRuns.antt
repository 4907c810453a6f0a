-- ===== src/Examples/OtherRuns.antt =====
-- The byte helpers and the cross-post record on concrete inputs.
use open_social_protocol.Prelude.{
  ℕ, String, ◌≡◌, ◌≢◌, ◌↔◌, refl, some, false, [], ◌∷◌, List, arith, sym, ◌∙◌,
}
use open_social_protocol.Chain.{Bytes}
use open_social_protocol.Chain.Util.{concat_buffer, u64be}
use open_social_protocol.Chain.Util.Concat.{concat_buffer-eq-concat}
use open_social_protocol.Chain.Util.Encode.{from_be, u64be_decode}
use open_social_protocol.Reconcile.Attempt.{
  CrossPostState, Attempt, ReconcileEvent, koinos_succeeded, host_succeeded, lookup_missing,
  new_attempt,
}
use open_social_protocol.Reconcile.Transition.{
  on_host_succeeded, conflict, on_lookup_missing, derive_state, finish, on_found, on_event,
  transition, retry_plan,
}
use open_social_protocol.Reconcile.Runs.{run, Settled, run_keeps_post_id, run_new_succeeded}

concat_buffer-eq-concat_example :
    concat_buffer ((1 ∷ 2 ∷ []) ∷ [] ∷ (3 ∷ []) ∷ []) ≡ some (1 ∷ 2 ∷ 3 ∷ [])
concat_buffer-eq-concat_example = concat_buffer-eq-concat ((1 ∷ 2 ∷ []) ∷ [] ∷ (3 ∷ []) ∷ [])

abbrev four : Bytes
four = 4 ∷ []

abbrev one_two : Bytes
one_two = 1 ∷ 2 ∷ []

u64be_decode_example : from_be 0 (u64be 1099511627777) ≡ 1099511627777
u64be_decode_example = u64be_decode 1099511627777 (omega arith)

abbrev unchanged : String → String
unchanged s = s

abbrev posted : Attempt
posted =
    run unchanged (new_attempt "a1" "b2" (some "host") 1 10) ((11, koinos_succeeded "tx" "p1") ∷ [])

posted-post_id : posted.post_id ≡ some "p1"
unfolding new_attempt transition on_event on_found finish
posted-post_id = refl

run_keeps_post_id_example :
    ((run unchanged posted ((12, koinos_succeeded "tx" "p2") ∷ [])).post_id ≡ some "p1")
    × ((retry_plan (run unchanged posted ((12, koinos_succeeded "tx" "p2") ∷ []))).koinos ≡ false)
run_keeps_post_id_example =
    run_keeps_post_id unchanged posted "p1" ((12, koinos_succeeded "tx" "p2") ∷ []) posted-post_id

abbrev contradicted : Attempt
contradicted = run unchanged posted ((12, lookup_missing) ∷ [])

contradicted-state : contradicted.state ≡ CrossPostState.reconcile_required
unfolding new_attempt transition on_event on_found finish derive_state on_lookup_missing conflict
contradicted-state = refl

abbrev both : List (ℕ × ReconcileEvent)
both = (11, koinos_succeeded "tx" "p1") ∷ (12, host_succeeded "h1") ∷ []

both-succeeded :
    (run unchanged (new_attempt "a1" "b2" (some "host") 1 10) both).state ≡ CrossPostState.succeeded
unfolding new_attempt transition on_event on_found finish derive_state on_host_succeeded
both-succeeded = refl

both-state :
    (run unchanged (new_attempt "a1" "b2" (some "host") 1 10) both).state
    ≢ CrossPostState.reconcile_required
both-state h = apart (sym both-succeeded ∙ h)
  where
    apart : (CrossPostState.succeeded ≡ CrossPostState.reconcile_required) → ⊥
    apart e = ground arith

run_new_succeeded_example :
    ((run unchanged (new_attempt "a1" "b2" (some "host") 1 10) both).state
      ≡ CrossPostState.succeeded)
    ↔ Settled (run unchanged (new_attempt "a1" "b2" (some "host") 1 10) both)
run_new_succeeded_example = run_new_succeeded unchanged "a1" "b2" (some "host") 1 10 both both-state
