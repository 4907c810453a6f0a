-- ===== src/Reconcile/Transition.antt =====
-- `deriveState`, `transition` and `retryPlan`.
use text.Mathlib.Text.{◌==◌ as str_eq}
use open_social_protocol.Prelude.{
  ℕ, String, str_append, Bool, true, false, Option, none, some, ◌&&◌, ◌||◌, not, if◌then◌else◌,
}
use open_social_protocol.Reconcile.Attempt.{
  CrossPostState, submitting, succeeded, partial, unknown, failed, reconcile_required, SideStatus,
  Attempt, ReconcileEvent, retry, host_succeeded, host_failed, koinos_succeeded, koinos_failed,
  koinos_unknown, lookup_found, lookup_missing,
}

-- Tests of a status, `status === "..."`.
abbrev pub is_ok : SideStatus → Bool
is_ok SideStatus.ok = true
is_ok _ = false

abbrev pub is_failed : SideStatus → Bool
is_failed SideStatus.failed = true
is_failed _ = false

abbrev pub is_unknown : SideStatus → Bool
is_unknown SideStatus.unknown = true
is_unknown _ = false

abbrev pub is_not_required : SideStatus → Bool
is_not_required SideStatus.not_required = true
is_not_required _ = false

-- `hostDone` of `deriveState`
abbrev pub host_done : SideStatus → Bool
host_done host = is_ok host || is_not_required host

-- deriveState
unfoldable pub derive_state : SideStatus → SideStatus → CrossPostState
derive_state host koinos =
    if is_unknown koinos
    then unknown
    else if host_done host && is_ok koinos
    then succeeded
    else if (host_done host && is_failed koinos) || (is_ok koinos && is_failed host)
    then partial
    else if is_failed host && is_failed koinos
    then failed
    else submitting

-- conflict
unfoldable pub conflict : Attempt → ℕ → String → Attempt
conflict r at reason = record r {
  state = reconcile_required;
  last_error = some reason;
  updated_at = at;
}

-- finish
unfoldable pub finish : Attempt → ℕ → Attempt
finish r at = record r { state = derive_state r.host_status r.koinos_status; updated_at = at }

-- A failed side is tried again.
abbrev pub again : SideStatus → SideStatus
again SideStatus.failed = SideStatus.pending
again s = s

-- `a !== undefined && a !== b`
abbrev pub differs : Option String → String → Bool
differs none b = false
differs (some a) b = not (str_eq a b)

abbrev pub or_old : Option String → Option String → Option String
or_old none old = old
or_old (some new) old = some new

abbrev pub conflict_text : String → String → Option String → String
conflict_text what new none = ""
conflict_text what new (some old) =
    str_append what (str_append new (str_append " conflicts with " old))

-- The case `retry`.
unfoldable pub on_retry : Attempt → ℕ → CrossPostState → Attempt
on_retry r at succeeded = r
on_retry r at unknown = record r {
  last_error = some "lookup required before retry";
  updated_at = at;
}
on_retry r at _ = record r {
  last_error = none;
  host_status = again r.host_status;
  koinos_status = again r.koinos_status;
  state = submitting;
  updated_at = at;
}

-- The case `hostSucceeded`.
unfoldable pub on_host_succeeded : Attempt → ℕ → String → Attempt
on_host_succeeded r at ref =
    if is_not_required r.host_status
    then conflict r at "host result for a Koinos-only attempt"
    else if differs r.host_ref ref
    then conflict r at (conflict_text "host ref " ref r.host_ref)
    else finish (record r { host_status = SideStatus.ok; host_ref = some ref }) at

-- The case `hostFailed`.
unfoldable pub on_host_failed : Attempt → ℕ → String → Attempt
on_host_failed r at error =
    if is_not_required r.host_status
    then conflict r at "host result for a Koinos-only attempt"
    else if is_ok r.host_status
    then r
    else finish (record r { host_status = SideStatus.failed; last_error = some error }) at

-- The cases `koinosSucceeded` and `lookupFound`, on the post id in lower case; the former drops the
-- last error.
unfoldable pub on_found : Attempt → ℕ → String → Option String → Option String → Attempt
on_found r at post_id tx_id last_error =
    if differs r.post_id post_id
    then conflict r at (conflict_text "post id " post_id r.post_id)
    else finish
        (record r {
          koinos_status = SideStatus.ok;
          post_id = some post_id;
          koinos_tx_id = or_old tx_id r.koinos_tx_id;
          last_error = last_error;
        })
        at

-- The case `koinosFailed`.
unfoldable pub on_koinos_failed : Attempt → ℕ → String → Attempt
on_koinos_failed r at error =
    if is_ok r.koinos_status
    then r
    else finish (record r { koinos_status = SideStatus.failed; last_error = some error }) at

-- The case `koinosUnknown`.
unfoldable pub on_koinos_unknown : Attempt → ℕ → Option String → Attempt
on_koinos_unknown r at error =
    if is_ok r.koinos_status
    then r
    else finish
        (record r { koinos_status = SideStatus.unknown; last_error = or_old error r.last_error }) at

-- The case `lookupMissing`.
unfoldable pub on_lookup_missing : Attempt → ℕ → Attempt
on_lookup_missing r at =
    if is_ok r.koinos_status
    then conflict r at "chain lookup found no post for an idempotency key recorded as succeeded"
    else if is_unknown r.koinos_status
    then finish
        (record r {
          koinos_status = SideStatus.failed;
          last_error = some "not found on chain; safe to retry";
        })
        at
    else record r { updated_at = at }

abbrev pub is_reconcile_required : CrossPostState → Bool
is_reconcile_required reconcile_required = true
is_reconcile_required _ = false

-- `toLowerCase` is the runtime's.
module _ (lower : String → String) where
  unfoldable pub on_event : Attempt → ℕ → ReconcileEvent → Attempt
  on_event r at retry = on_retry r at r.state
  on_event r at (host_succeeded ref) = on_host_succeeded r at ref
  on_event r at (host_failed error) = on_host_failed r at error
  on_event r at (koinos_succeeded tx_id post_id) = on_found r at (lower post_id) (some tx_id) none
  on_event r at (lookup_found post_id tx_id) = on_found r at (lower post_id) tx_id r.last_error
  on_event r at (koinos_failed error) = on_koinos_failed r at error
  on_event r at (koinos_unknown error) = on_koinos_unknown r at error
  on_event r at lookup_missing = on_lookup_missing r at

  -- transition, at the time `event.at ?? Date.now()`
  unfoldable pub transition : Attempt → ℕ → ReconcileEvent → Attempt
  transition r at event = if is_reconcile_required r.state then r else on_event r at event

abbrev pub is_none {ℓ} : {A : Type ℓ} → Option A → Bool
is_none none = true
is_none (some a) = false

-- retryPlan: which sides a retry publishes again.
pub record RetryPlan : Type 0 where
  pub koinos : Bool
  pub host : Bool

unfoldable pub retry_plan : Attempt → RetryPlan
retry_plan r = record {
  koinos = is_none r.post_id && not (is_ok r.koinos_status) && not (is_unknown r.koinos_status);
  host = not (is_not_required r.host_status) && not (is_ok r.host_status);
}
