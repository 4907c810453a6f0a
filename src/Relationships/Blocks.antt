-- ===== src/Relationships/Blocks.antt =====
-- Blocks, follows, the audience epoch and the read methods.
use open_social_protocol.Prelude.{
  ℕ, Bool, true, false, Option, none, some, [], ◌∷◌, ◌||◌, not, if◌then◌else◌,
}
use open_social_protocol.Chain.{Bytes, Sdk, Env, Usage, Result, ok, ◌>>=◌, ◌>>◌, require}
use open_social_protocol.Chain.Util.{is_empty, value, require_address}
use open_social_protocol.Chain.Actor
use open_social_protocol.Chain.Actor.{require_authorized, exists}
use open_social_protocol.Relationships.State.{
  inactive, RelationshipRecord, AudienceState, FollowRecord, blocked, unblocked, followed,
  unfollowed, State, emit,
}
use open_social_protocol.Relationships.Checks.{
  reason_blocked, reason_manual, pair_key, directed_key, audience_or_zero, identity_contract,
  consume, has_blocked, require_not_blocked, is_following, load_audience, advance_epoch,
  emit_audience_rotated,
}
use open_social_protocol.Relationships.Friends.{is_pending, is_active, with_status, put_edge}

-- `rec != null && rec.status == active`
abbrev pub was_active : Option RelationshipRecord → Bool
was_active none = false
was_active (some rec) = is_active rec.status

module _ ⦃sdk : Sdk⦄ ⦃usage : Usage⦄ where
  open sdk use {get, put, remove, equal}

  -- The part of `block` that ends a pending or an active friendship.
  unfoldable pub end_edge : Bytes → ℕ → Option RelationshipRecord → State → State
  end_edge key now none s = s
  end_edge key now (some rec) s =
      if is_pending rec.status || is_active rec.status
      then put_edge key (with_status inactive now rec) s
      else s

  -- The last statement of `block`.
  unfoldable pub rotate_target : Bytes → ℕ → Bool → State → Result State
  rotate_target target now false s = ok s
  rotate_target target now true s = do
    (s', epoch) ← advance_epoch target now s
    ok (emit_audience_rotated target epoch reason_blocked now s')

  -- Relationships.block
  unfoldable pub block : Env → Option Bytes → Option Bytes → State → Result State
  block env actor target s = do
    a ← require_address actor "actor"
    b ← require_address target "target"
    require (not (equal a b)) "cannot block yourself"
    signer ← require_authorized env (identity_contract s) a none 0
    require (not (has_blocked s a b)) "already blocked"
    let old = get s.edges (pair_key a b)
    let s1 = record s {
      blocks = put s.blocks (directed_key a b) (record { blocked = true; updated_at = env.now });
    }
    let s2 = end_edge (pair_key a b) env.now old s1
    let s3 = record s2 {
      follows = remove (remove s2.follows (directed_key a b)) (directed_key b a);
    }
    (s4, epoch) ← advance_epoch a env.now s3
    rotate_target b env.now (was_active old) (
        emit_audience_rotated a epoch reason_blocked env.now
          (emit (blocked a b epoch env.now) (a ∷ b ∷ []) s4))

  -- Relationships.unblock
  unfoldable pub unblock : Env → Option Bytes → Option Bytes → State → Result State
  unblock env actor target s = do
    a ← require_address actor "actor"
    b ← require_address target "target"
    require (not (equal a b)) "cannot unblock yourself"
    signer ← require_authorized env (identity_contract s) a none 0
    require (has_blocked s a b) "not blocked"
    ok (
        emit (unblocked a b env.now) (a ∷ b ∷ [])
          (record s { blocks = remove s.blocks (directed_key a b) }))

  -- Relationships.follow
  unfoldable pub follow : Env → Option Bytes → Option Bytes → Option Bytes → State → Result State
  follow env follower target device s = do
    a ← require_address follower "follower"
    b ← require_address target "target"
    require (not (equal a b)) "cannot follow yourself"
    signer ← require_authorized env (identity_contract s) a device Actor.relationships
    known ← exists env (identity_contract s) b
    require known "target not registered"
    require_not_blocked s a b "target"
    require (not (is_following s a b)) "already following"
    s' ← consume a (record s {
      follows = put s.follows (directed_key a b) (record { active = true; updated_at = env.now });
    })
    ok (emit (followed a b env.now) (a ∷ b ∷ []) s')

  -- Relationships.unfollow
  unfoldable pub unfollow : Env → Option Bytes → Option Bytes → Option Bytes → State → Result State
  unfollow env follower target device s = do
    a ← require_address follower "follower"
    b ← require_address target "target"
    require (not (equal a b)) "cannot unfollow yourself"
    signer ← require_authorized env (identity_contract s) a device Actor.relationships
    require (is_following s a b) "not following"
    ok (
        emit (unfollowed a b env.now) (a ∷ b ∷ [])
          (record s { follows = remove s.follows (directed_key a b) }))

  -- Relationships.rotate_audience
  unfoldable pub rotate_audience : Env → Option Bytes → Option Bytes → State → Result State
  rotate_audience env actor device s = do
    a ← require_address actor "actor"
    signer ← require_authorized env (identity_contract s) a device Actor.relationships
    (s', epoch) ← advance_epoch a env.now s
    ok (emit_audience_rotated a epoch reason_manual env.now s')

  -- Relationships.get_relationship
  unfoldable pub get_relationship : Option Bytes → Option Bytes → State → Option RelationshipRecord
  get_relationship a b s =
      if is_empty a || is_empty b then none else get s.edges (pair_key (value a) (value b))

  -- Relationships.get_audience
  unfoldable pub get_audience : Option Bytes → State → AudienceState
  get_audience account s =
      if is_empty account then audience_or_zero none else load_audience s (value account)

  -- Relationships.is_blocked
  unfoldable pub is_blocked : Option Bytes → Option Bytes → State → Bool
  is_blocked actor target s =
      if is_empty actor || is_empty target
      then false
      else has_blocked s (value actor) (value target)

  -- Relationships.get_follow
  unfoldable pub get_follow : Option Bytes → Option Bytes → State → Option FollowRecord
  get_follow follower target s =
      if is_empty follower || is_empty target
      then none
      else get s.follows (directed_key (value follower) (value target))

  -- Relationships.get_token_contract
  unfoldable pub get_token_contract : State → Option Bytes
  get_token_contract s = s.token

  -- Relationships.get_identity_contract
  unfoldable pub get_identity_contract : State → Option Bytes
  get_identity_contract s = s.config
