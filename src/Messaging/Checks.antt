-- ===== src/Messaging/Checks.antt =====
-- The configuration and the checks that the methods share.
use open_social_protocol.Prelude.{Bool, Option, some, [], ◌∷◌, not}
use open_social_protocol.Chain.{
  Usage, Bytes, Sdk, Env, Reply, failed, empty, object, Result, ok, reverted, ◌>>=◌, ◌>>◌, require,
  require_some,
}
use open_social_protocol.Chain.Util.{if_less, compare, concat, require_address}
use open_social_protocol.Chain.Actor
use open_social_protocol.Chain.Actor.{require_authorized}
use open_social_protocol.Messaging.State.{
  Dependencies, Conversation, conversation_changed, State, emit,
}

-- Messaging.pair
unfoldable pub pair : Bytes → Bytes → Bytes
pair a b = if_less (compare a b) (concat (a ∷ b ∷ [])) (concat (b ∷ a ∷ []))

abbrev pub unblocked_reply : Reply Bool → Result (Unit {0})
unblocked_reply failed = reverted "block check failed"
unblocked_reply empty = reverted "block check failed"
unblocked_reply (object blocked) = require (not blocked) "conversation blocked"

module _ ⦃sdk : Sdk⦄ ⦃usage : Usage⦄ where
  open sdk use {equal}

  -- Messaging.deps, and Messaging.get_dependencies
  unfoldable pub deps : State → Result Dependencies
  deps s = require_some s.config "messaging not configured"

  -- Messaging.set_dependencies
  unfoldable pub set_dependencies :
      Env → Option Bytes → Option Bytes → Option Bytes → State → Result State
  set_dependencies env identity relationships token s = do
    require (env.authorized env.contract_id) "authorization failed"
    i ← require_address identity "identity"
    r ← require_address relationships "relationships"
    t ← require_address token "token"
    ok (record s { config = some (record { identity = i; relationships = r; token = t }) })

  -- Messaging.unblocked: neither has blocked the other.
  unfoldable pub unblocked : Env → Bytes → Bytes → State → Result (Unit {0})
  unblocked env a b s = do
    d ← deps s
    unblocked_reply (env.is_blocked d.relationships a b)
    unblocked_reply (env.is_blocked d.relationships b a)

  -- Messaging.authorize
  unfoldable pub authorize : Env → Bytes → Bytes → Option Bytes → State → Result (Unit {0})
  authorize env a b device s = do
    a' ← require_address (some a) "actor"
    b' ← require_address (some b) "peer"
    require (not (equal a b)) "cannot message yourself"
    d ← deps s
    signer ← require_authorized env d.identity a device Actor.messaging
    ok tt

  -- Messaging.consume: one unit of the token contract's allowance.
  unfoldable pub consume : Bytes → State → Result State
  consume a s = do
    d ← deps s
    ledger ← require_some (usage.consume d.token a 1 s.ledger) "usage allowance exhausted"
    ok (record s { ledger = ledger })

  -- Messaging.emit
  abbrev pub emit_changed : Env → Conversation → State → State
  emit_changed env c s = emit (conversation_changed c env.now) (c.a ∷ c.b ∷ []) s
