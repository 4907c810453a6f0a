-- ===== src/Relationships/Friends.antt =====
-- `request_friend`, `accept_friend` and `remove_friend`.
use open_social_protocol.Prelude.{ℕ, Bool, true, false, Option, some, [], ◌∷◌, not}
use open_social_protocol.Prelude.{none}
use open_social_protocol.Chain.{
  Bytes, Sdk, Env, Usage, Result, ok, ◌>>=◌, ◌>>◌, require, require_some, add64,
}
use open_social_protocol.Chain.Util.{compare, if_less, require_address}
use open_social_protocol.Chain.Actor
use open_social_protocol.Chain.Actor.{require_authorized, exists}
use open_social_protocol.Relationships.State.{
  RelationshipStatus, pending, active, inactive, RelationshipRecord, friend_requested,
  friend_accepted, friend_removed, State, emit,
}
use open_social_protocol.Relationships.Checks.{
  reason_friend_removed, pair_key, optional_key_package_ref, identity_contract, consume,
  require_not_blocked, advance_epoch, emit_audience_rotated,
}

abbrev pub is_pending : RelationshipStatus → Bool
is_pending pending = true
is_pending _ = false

abbrev pub is_active : RelationshipStatus → Bool
is_active active = true
is_active _ = false

-- The nonce of a request: one more than that of an old record, which is neither pending nor active.
unfoldable pub next_nonce : Option RelationshipRecord → Result ℕ
next_nonce none = ok 1
next_nonce (some existing) = do
  require (not (is_pending existing.status)) "already pending"
  require (not (is_active existing.status)) "already friends"
  ok (add64 existing.nonce 1)

-- A record with another status, its nonce moved on.
abbrev pub with_status : RelationshipStatus → ℕ → RelationshipRecord → RelationshipRecord
with_status status now rec = record rec {
  status = status;
  nonce = add64 rec.nonce 1;
  updated_at = now;
}

module _ ⦃sdk : Sdk⦄ ⦃usage : Usage⦄ where
  open sdk use {get, put, equal}

  abbrev pub put_edge : Bytes → RelationshipRecord → State → State
  put_edge key rec s = record s { edges = put s.edges key rec }

  -- Relationships.request_friend
  unfoldable pub request_friend :
      Env → Option Bytes → Option Bytes → Option Bytes → State → Result State
  request_friend env requester recipient device s = do
    a ← require_address requester "requester"
    b ← require_address recipient "recipient"
    require (not (equal a b)) "cannot friend yourself"
    signer ← require_authorized env (identity_contract s) a device Actor.relationships
    known ← exists env (identity_contract s) b
    require known "recipient not registered"
    require_not_blocked s a b "recipient"
    nonce ← next_nonce (get s.edges (pair_key a b))
    let rec : RelationshipRecord = record {
      a = if_less (compare a b) a b;
      b = if_less (compare a b) b a;
      status = pending;
      requester = a;
      nonce = nonce;
      updated_at = env.now;
    }
    s' ← consume a (put_edge (pair_key a b) rec s)
    ok (emit (friend_requested a b nonce env.now) (a ∷ b ∷ []) s')

  -- Relationships.accept_friend
  unfoldable pub accept_friend :
      Env → Option Bytes → Option Bytes → Option Bytes → Option Bytes → State → Result State
  accept_friend env approver requester device key_package_ref s = do
    a ← require_address approver "approver"
    b ← require_address requester "requester"
    require (not (equal a b)) "approver and requester must differ"
    signer ← require_authorized env (identity_contract s) a device Actor.relationships
    require_not_blocked s a b "requester"
    ref ← optional_key_package_ref key_package_ref
    rec ← require_some (get s.edges (pair_key a b)) "no pending request"
    require (is_pending rec.status) "no pending request"
    require (equal rec.requester b) "requester mismatch"
    let rec' = with_status active env.now rec
    ok (
        emit (friend_accepted a b rec'.nonce ref env.now) (a ∷ b ∷ [])
          (put_edge (pair_key a b) rec' s))

  -- Relationships.remove_friend
  unfoldable pub remove_friend :
      Env → Option Bytes → Option Bytes → Option Bytes → State → Result State
  remove_friend env actor peer device s = do
    a ← require_address actor "actor"
    b ← require_address peer "peer"
    require (not (equal a b)) "actor and peer must differ"
    signer ← require_authorized env (identity_contract s) a device Actor.relationships
    rec ← require_some (get s.edges (pair_key a b)) "not friends"
    require (is_active rec.status) "not friends"
    let rec' = with_status inactive env.now rec
    (s', epoch) ← advance_epoch a env.now (put_edge (pair_key a b) rec' s)
    (s'', epoch') ← advance_epoch b env.now (
        emit_audience_rotated a epoch reason_friend_removed env.now
          (emit (friend_removed a b rec'.nonce epoch env.now) (a ∷ b ∷ []) s'))
    ok (emit_audience_rotated b epoch' reason_friend_removed env.now s'')
