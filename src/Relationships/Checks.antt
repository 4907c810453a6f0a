-- ===== src/Relationships/Checks.antt =====
-- The configuration, the keys and the checks that the methods share.
use open_social_protocol.Prelude.{
  ℕ, ◌-◌, String, str_append, Bool, false, Option, none, some, [], ◌∷◌, not, ltb, length, ◌==◌,
  if◌then◌else◌,
}
use open_social_protocol.Chain.{
  Bytes, Sdk, Env, Usage, Result, ok, ◌>>=◌, ◌>>◌, require, require_some, u32_mod, add32,
}
use open_social_protocol.Chain.Util.{
  compare, if_not_greater, concat, is_empty, value, require_address,
}
use open_social_protocol.Relationships.State.{
  BlockRecord, FollowRecord, AudienceState, audience_rotated, State, emit,
}

abbrev pub key_package_ref_length : ℕ
key_package_ref_length = 32

-- Audience rotation reasons.
abbrev pub reason_friend_removed : String
reason_friend_removed = "friend_removed"

abbrev pub reason_blocked : String
reason_blocked = "blocked"

abbrev pub reason_manual : String
reason_manual = "manual"

-- Relationships.pairKey
unfoldable pub pair_key : Bytes → Bytes → Bytes
pair_key a b = if_not_greater (compare a b) (concat (a ∷ b ∷ [])) (concat (b ∷ a ∷ []))

-- Relationships.directedKey
abbrev pub directed_key : Bytes → Bytes → Bytes
directed_key from to = concat (from ∷ to ∷ [])

-- `rec != null && rec.blocked`
abbrev pub is_block : Option BlockRecord → Bool
is_block none = false
is_block (some rec) = rec.blocked

-- `rec != null && rec.active`
abbrev pub is_follow : Option FollowRecord → Bool
is_follow none = false
is_follow (some rec) = rec.active

abbrev pub audience_or_zero : Option AudienceState → AudienceState
audience_or_zero none = record { epoch = 0; updated_at = 0 }
audience_or_zero (some a) = a

-- Relationships.optionalKeyPackageRef
unfoldable pub optional_key_package_ref : Option Bytes → Result (Option Bytes)
optional_key_package_ref v =
    if is_empty v
    then ok none
    else require (length (value v) == key_package_ref_length)
        "key_package_ref must be empty or 32 bytes"
      >> ok v

module _ ⦃sdk : Sdk⦄ ⦃usage : Usage⦄ where
  open sdk use {get, put}

  -- Relationships.set_token_contract
  unfoldable pub set_token_contract : Env → Option Bytes → State → Result State
  set_token_contract env address s = do
    require (env.authorized env.contract_id) "authorization failed"
    a ← require_address address "token"
    ok (record s { token = some a })

  -- Relationships.set_identity_contract
  unfoldable pub set_identity_contract : Env → Option Bytes → State → Result State
  set_identity_contract env address s = do
    require (env.authorized env.contract_id) "authorization failed"
    a ← require_address address "address"
    ok (record s { config = some a })

  -- Relationships.identityContract: empty bytes when it is unset.
  unfoldable pub identity_contract : State → Bytes
  identity_contract s = if is_empty s.config then [] else value s.config

  -- Relationships.consume: nothing is charged before a token contract is set.
  unfoldable pub consume : Bytes → State → Result State
  consume account s = if is_empty s.token then ok s else do
    ledger ←
        require_some (usage.consume (value s.token) account 1 s.ledger) "usage allowance exhausted"
    ok (record s { ledger = ledger })

  -- Relationships.hasBlocked
  unfoldable pub has_blocked : State → Bytes → Bytes → Bool
  has_blocked s actor target = is_block (get s.blocks (directed_key actor target))

  -- Relationships.requireNotBlocked
  unfoldable pub require_not_blocked : State → Bytes → Bytes → String → Result (Unit {0})
  require_not_blocked s actor other what = do
    require (not (has_blocked s actor other)) (str_append what " is blocked")
    require (not (has_blocked s other actor)) (str_append "blocked by " what)

  -- Relationships.isFollowing
  unfoldable pub is_following : State → Bytes → Bytes → Bool
  is_following s follower target = is_follow (get s.follows (directed_key follower target))

  -- Relationships.loadAudience
  unfoldable pub load_audience : State → Bytes → AudienceState
  load_audience s account = audience_or_zero (get s.audiences account)

  -- Relationships.advanceEpoch
  unfoldable pub advance_epoch : Bytes → ℕ → State → Result (State × ℕ)
  advance_epoch account now s = do
    let old = load_audience s account
    require (ltb old.epoch (u32_mod - 1)) "audience epoch exhausted"
    let epoch = add32 old.epoch 1
    ok (
      record s { audiences = put s.audiences account (record { epoch = epoch; updated_at = now }) },
      epoch,
    )

  -- Relationships.emitAudienceRotated
  abbrev pub emit_audience_rotated : Bytes → ℕ → String → ℕ → State → State
  emit_audience_rotated account epoch reason now s =
      emit (audience_rotated account epoch reason now) (account ∷ []) s
