-- ===== src/Reconcile/Attempt.antt =====
-- `CrossPostRecord`, `ReconcileEvent` and `newCrossPostRecord`.
use open_social_protocol.Prelude.{ℕ, String, Option, none, some}

-- CrossPostState
pub data CrossPostState : Type 0 where
  draft submitting succeeded partial unknown failed reconcile_required : CrossPostState

-- SideStatus
pub data SideStatus : Type 0 where
  pending ok failed unknown not_required : SideStatus

-- CrossPostRecord; an absent field is `none`
pub record Attempt : Type 0 where
  pub idempotency_key : String
  pub attempt_id : String
  pub host_site : Option String
  pub audience : ℕ
  pub state : CrossPostState
  pub host_status : SideStatus
  pub koinos_status : SideStatus
  pub host_ref : Option String
  pub koinos_tx_id : Option String
  pub post_id : Option String
  pub last_error : Option String
  pub updated_at : ℕ

-- ReconcileEvent, without the time, which the transition takes beside it
pub data ReconcileEvent : Type 0 where
  retry : ReconcileEvent
  host_succeeded : String → ReconcileEvent
  host_failed : String → ReconcileEvent
  koinos_succeeded : String → String → ReconcileEvent
  koinos_failed : String → ReconcileEvent
  koinos_unknown : Option String → ReconcileEvent
  lookup_found : String → Option String → ReconcileEvent
  lookup_missing : ReconcileEvent

abbrev host_status_of : Option String → SideStatus
host_status_of none = SideStatus.not_required
host_status_of (some site) = SideStatus.pending

-- newCrossPostRecord, on the hex of the two ids and with an empty host site given as `none`
unfoldable pub new_attempt : String → String → Option String → ℕ → ℕ → Attempt
new_attempt idempotency_key attempt_id host_site audience now = record {
  idempotency_key = idempotency_key;
  attempt_id = attempt_id;
  host_site = host_site;
  audience = audience;
  state = CrossPostState.draft;
  host_status = host_status_of host_site;
  koinos_status = SideStatus.pending;
  host_ref = none;
  koinos_tx_id = none;
  post_id = none;
  last_error = none;
  updated_at = now;
}
