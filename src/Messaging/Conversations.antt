-- ===== src/Messaging/Conversations.antt =====
-- `request_conversation`, `accept_conversation`, `close_conversation` and `get_conversation`.
use open_social_protocol.Prelude.{ℕ, ◌-◌, Bool, true, Option, none, some, ◌&&◌, ◌==◌, ltb}
use open_social_protocol.Chain.{
  Usage, Bytes, Sdk, Env, Result, ok, ◌>>=◌, ◌>>◌, require, require_some, u64_mod, add64,
}
use open_social_protocol.Chain.Util.{if_less, compare, require_address}
use open_social_protocol.Chain.Actor.{exists}
use open_social_protocol.Messaging.State.{requested, accepted, closed, Conversation, State}
use open_social_protocol.Messaging.Checks.{pair, deps, unblocked, authorize, consume, emit_changed}

-- `old == null || old.status == 3`
abbrev pub may_request : Option Conversation → Bool
may_request none = true
may_request (some old) = old.status == closed

abbrev pub generation_of : Option Conversation → ℕ
generation_of none = 0
generation_of (some old) = old.generation

abbrev pub sequence_of : Option Conversation → ℕ
sequence_of none = 0
sequence_of (some old) = old.sequence

module _ ⦃sdk : Sdk⦄ ⦃usage : Usage⦄ where
  open sdk use {get, put, equal}

  -- `this.conversations.put(key, c); this.emit(c)`
  abbrev pub put_conversation : Env → Bytes → Conversation → State → State
  put_conversation env key c s =
      emit_changed env c (record s { conversations = put s.conversations key c })

  -- Messaging.request_conversation
  unfoldable pub request_conversation :
      Env → Option Bytes → Option Bytes → Option Bytes → ℕ → State → Result State
  request_conversation env actor peer device generation s = do
    a ← require_address actor "actor"
    b ← require_address peer "peer"
    authorize env a b device s
    unblocked env a b s
    d ← deps s
    known ← exists env d.identity b
    require known "peer not registered"
    let old = get s.conversations (pair a b)
    require (may_request old) "conversation already requested or accepted"
    require (generation == generation_of old) "conversation changed; refresh"
    require (ltb generation (u64_mod - 1)) "conversation generation exhausted"
    s' ← consume a s
    let c : Conversation = record {
      a = if_less (compare a b) a b;
      b = if_less (compare a b) b a;
      requester = a;
      status = requested;
      generation = add64 generation 1;
      sequence = sequence_of old;
      updated_at = env.now;
    }
    ok (put_conversation env (pair a b) c s')

  -- Messaging.accept_conversation
  unfoldable pub accept_conversation :
      Env → Option Bytes → Option Bytes → Option Bytes → ℕ → State → Result State
  accept_conversation env actor peer device generation s = do
    a ← require_address actor "actor"
    b ← require_address peer "peer"
    authorize env a b device s
    unblocked env a b s
    c ← require_some (get s.conversations (pair a b)) "no matching invitation"
    require (c.status == requested && c.generation == generation) "no matching invitation"
    require (equal c.requester b) "only the recipient may accept"
    ok (put_conversation env (pair a b) (record c { status = accepted; updated_at = env.now }) s)

  -- Messaging.close_conversation
  unfoldable pub close_conversation :
      Env → Option Bytes → Option Bytes → Option Bytes → ℕ → State → Result State
  close_conversation env actor peer device generation s = do
    a ← require_address actor "actor"
    b ← require_address peer "peer"
    authorize env a b device s
    c ← require_some (get s.conversations (pair a b)) "conversation changed; refresh"
    require (c.generation == generation) "conversation changed; refresh"
    ok (put_conversation env (pair a b) (record c { status = closed; updated_at = env.now }) s)

  -- Messaging.get_conversation
  unfoldable pub get_conversation :
      Option Bytes → Option Bytes → State → Result (Option Conversation)
  get_conversation a b s = do
    x ← require_address a "a"
    y ← require_address b "b"
    ok (get s.conversations (pair x y))
