-- ===== src/Messaging/Messages.antt =====
-- `send_message` and `get_message`.
use open_social_protocol.Prelude.{
  drop, ℕ, ◌-◌, Option, none, some, [], ◌∷◌, ◌&&◌, ◌==◌, ltb, length,
}
use open_social_protocol.Chain.{
  Usage, Bytes, Sdk, Env, Result, ok, ◌>>=◌, ◌>>◌, require, require_some, u64_mod, add64,
}
use open_social_protocol.Chain.Util.{concat, require_address, require_bytes}
use open_social_protocol.Messaging.State.{
  accepted, Conversation, Message, message_sent, State, emit,
}
use open_social_protocol.Messaging.Checks.{pair, unblocked, authorize, consume}

module _ ⦃sdk : Sdk⦄ ⦃usage : Usage⦄ where
  open sdk use {get, put, equal}

  -- The key of a message: its sender and its id.
  abbrev pub message_key : Bytes → Bytes → Bytes
  message_key sender id = concat (sender ∷ id ∷ [])

  -- The conversation after one more message.
  abbrev pub advance : Env → Conversation → Conversation
  advance env c = record c { sequence = add64 c.sequence 1; updated_at = env.now }

  -- `send_message` for an id that is new: the message is stored and the conversation advances.
  unfoldable pub send_new :
      Env → Bytes → Bytes → Bytes → Bytes → Bytes → ℕ → State → Result (State × Message)
  send_new env a b id envelope hash generation s = do
    unblocked env a b s
    c ←
        require_some (get s.conversations (pair a b))
          "recipient must accept this conversation first"
    require (c.status == accepted && c.generation == generation)
        "recipient must accept this conversation first"
    require (ltb c.sequence (u64_mod - 1)) "message sequence exhausted"
    s' ← consume a s
    let c' = advance env c
    let m : Message = record {
      sender = a;
      recipient = b;
      message_id = id;
      content_hash = hash;
      generation = generation;
      sequence = c'.sequence;
      timestamp = env.now;
    }
    ok (
      emit (message_sent m envelope env.now) (a ∷ b ∷ []) (record s' {
        conversations = put s'.conversations (pair a b) c';
        messages = put s'.messages (message_key a id) m;
      }),
      m,
    )

  -- A retry returns the stored message, if its content is the same.
  unfoldable pub send_again : Bytes → Bytes → ℕ → Message → State → Result (State × Message)
  send_again b hash generation existing s = do
    require
        (equal existing.recipient b
          && (existing.generation == generation)
          && equal existing.content_hash hash)
        "message id already used for different content"
    ok (s, existing)

  abbrev pub send_checked :
      Env
      → Bytes
      → Bytes
      → Bytes
      → Bytes
      → Bytes
      → ℕ
      → Option Message
      → State
      → Result (State × Message)
  send_checked env a b id envelope hash generation none s =
      send_new env a b id envelope hash generation s
  send_checked env a b id envelope hash generation (some existing) s =
      send_again b hash generation existing s

  -- Messaging.send_message
  unfoldable pub send_message :
      Env
      → Option Bytes
      → Option Bytes
      → Option Bytes
      → Option Bytes
      → ℕ
      → Option Bytes
      → State
      → Result (State × Message)
  send_message env sender recipient device message_id generation envelope s = do
    a ← require_address sender "sender"
    b ← require_address recipient "recipient"
    authorize env a b device s
    id ← require_bytes message_id 32 "message id"
    require (length id == 32) "message id must be 32 bytes"
    e ← require_bytes envelope 4096 "encrypted envelope"
    send_checked env a b id e (drop 2 (env.hash e)) generation (get s.messages (message_key a id)) s

  -- Messaging.get_message
  unfoldable pub get_message : Option Bytes → Option Bytes → State → Result (Option Message)
  get_message sender message_id s = do
    a ← require_address sender "sender"
    id ← require_bytes message_id 32 "message id"
    ok (get s.messages (message_key a id))
