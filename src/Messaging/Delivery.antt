-- ===== src/Messaging/Delivery.antt =====
-- What a call of `send_message` does, and what a retry of it does.
use open_social_protocol.Prelude.{
  drop, ℕ, ◌+◌, ◌≡◌, ◌⊎◌, inl, inr, refl, Option, none, some, arith, length, Option-cases,
}
use open_social_protocol.Chain.{Usage, Bytes, Sdk, Env, ok}
use open_social_protocol.Chain.Util.{require_address, require_bytes, value}
use open_social_protocol.Chain.Util.Require.{require_address-ok, require_bytes-ok}
use open_social_protocol.Messaging.State.{Dependencies, Conversation, Message, State, accepted}
use open_social_protocol.Messaging.Checks.{pair, authorize, consume, deps}
use open_social_protocol.Messaging.Messages.{
  message_key, advance, send_new, send_again, send_checked, send_message,
}

module _ ⦃sdk : Sdk⦄ ⦃usage : Usage⦄ where
  open sdk use {get, put, equal, get-put, equal_iff}

  -- A message that a call has stored, where none was: the conversation was accepted, in the same generation, it has
  -- one more message, and the sender has paid one unit.
  pub record Delivered (env : Env) (a b id envelope : Bytes) (generation : ℕ) (s t : State)
      (m : Message) : Type 0 where
    pub c : Conversation
    pub d : Dependencies
    pub new : get s.messages (message_key a id) ≡ none
    pub open_before : get s.conversations (pair a b) ≡ some c
    pub was_accepted : c.status ≡ accepted
    pub same_generation : c.generation ≡ generation
    pub conversations : t.conversations ≡ put s.conversations (pair a b) (advance env c)
    pub one_more : (advance env c).sequence ≡ c.sequence + 1
    pub config : s.config ≡ some d
    pub paid : usage.consume d.token a 1 s.ledger ≡ some t.ledger
    pub sender : m.sender ≡ a
    pub recipient : m.recipient ≡ b
    pub hash : m.content_hash ≡ drop 2 (env.hash envelope)
    pub generation_of : m.generation ≡ generation
    pub sequence_of : m.sequence ≡ c.sequence + 1
    pub messages : t.messages ≡ put s.messages (message_key a id) m

  -- A retry, which returns what is stored.
  pub record Repeated (env : Env) (a b id envelope : Bytes) (generation : ℕ) (s t : State)
      (m : Message) : Type 0 where
    pub unchanged : t ≡ s
    pub stored : get s.messages (message_key a id) ≡ some m
    pub recipient : m.recipient ≡ b
    pub generation_of : m.generation ≡ generation
    pub hash : m.content_hash ≡ drop 2 (env.hash envelope)

  send_again-Repeated :
      (env : Env) (a b id envelope : Bytes) (generation : ℕ) (s t : State) (m old : Message)
      → get s.messages (message_key a id) ≡ some old
      → send_again b (drop 2 (env.hash envelope)) generation old s ≡ ok (t, m)
      → Repeated env a b id envelope generation s t m
  unfolding send_again
  send_again-Repeated env a b id envelope generation s t m old e h =
      ground
        (arith, equal_iff old.recipient b, equal_iff old.content_hash (drop 2 (env.hash envelope)))

  send_new-Delivered :
      (env : Env) (a b id envelope : Bytes) (generation : ℕ) (s t : State) (m : Message)
      → get s.messages (message_key a id) ≡ none
      → send_new env a b id envelope (drop 2 (env.hash envelope)) generation s ≡ ok (t, m)
      → Delivered env a b id envelope generation s t m
  unfolding send_new consume deps
  send_new-Delivered env a b id envelope generation s t m new h = ground arith

  -- The branches, by whether a message is stored.
  sent_cases :
      (env : Env) (a b id e : Bytes) (generation : ℕ) (s t : State) (m : Message)
      → send_checked env a b id e
          (drop 2 (env.hash e))
          generation
          (get s.messages (message_key a id))
          s
        ≡ ok (t, m)
      → Delivered env a b id e generation s t m ⊎ Repeated env a b id e generation s t m
  sent_cases env a b id e generation s t m h =
      elim (Option-cases (get s.messages (message_key a id))) [
        | inl new ↦ inl (send_new-Delivered env a b id e generation s t m new (rw new at h))
        | inr (old, there) ↦
            inr (send_again-Repeated env a b id e generation s t m old there (rw there at h))
      ]

  -- Either way the message is stored afterwards, with this recipient, generation and content.
  send_again_stored :
      (env : Env) (a b id e : Bytes) (generation : ℕ) (s t : State) (m : Message)
      → Delivered env a b id e generation s t m ⊎ Repeated env a b id e generation s t m
      → (get t.messages (message_key a id) ≡ some m)
        × (send_again b (drop 2 (env.hash e)) generation m t ≡ ok (t, m))
  unfolding send_again
  send_again_stored env a b id e generation s t m (inl d) = (
    rw (d.messages, get-put, (equal_iff (message_key a id) (message_key a id)).1 refl) refl,
    ground (arith, d, equal_iff m.recipient b, equal_iff m.content_hash (drop 2 (env.hash e))),
  )
  send_again_stored env a b id e generation s t m (inr r) = (
    rw r.unchanged r.stored,
    ground (arith, r, equal_iff m.recipient b, equal_iff m.content_hash (drop 2 (env.hash e))),
  )

  -- What a call with these arguments has checked, and the branch that it took.
  pub record Sent (env : Env) (sender recipient device message_id : Option Bytes) (generation : ℕ)
      (envelope : Option Bytes) (s t : State) (m : Message) : Type 0 where
    pub a : Bytes
    pub b : Bytes
    pub id : Bytes
    pub e : Bytes
    pub from : require_address sender "sender" ≡ ok a
    pub to : require_address recipient "recipient" ≡ ok b
    pub allowed : authorize env a b device s ≡ ok tt
    pub named : require_bytes message_id 32 "message id" ≡ ok id
    pub long : length id ≡ 32
    pub body : require_bytes envelope 4096 "encrypted envelope" ≡ ok e
    pub branch :
        send_checked env a b id e
          (drop 2 (env.hash e))
          generation
          (get s.messages (message_key a id))
          s
        ≡ ok (t, m)

  pub send_message-Sent :
      (env : Env) (sender recipient device message_id : Option Bytes) (generation : ℕ)
      (envelope : Option Bytes) (s t : State) (m : Message)
      → send_message env sender recipient device message_id generation envelope s ≡ ok (t, m)
      → Sent env sender recipient device message_id generation envelope s t m
  unfolding send_message
  send_message-Sent env sender recipient device message_id generation envelope s t m h =
      ground arith

  -- A successful call of `send_message` has either found no message under this sender and id, in an
  -- accepted conversation of this generation, and has stored the new one, moved the conversation on by
  -- one message and charged the sender one unit, or returned the message that
  -- was stored under this sender and id, whose recipient, generation and content are the same, and
  -- changed nothing.
  pub send_message_effect :
      (env : Env) (sender recipient device message_id : Option Bytes) (generation : ℕ)
      (envelope : Option Bytes) (s t : State) (m : Message)
      → send_message env sender recipient device message_id generation envelope s ≡ ok (t, m)
      → Delivered env
          (value sender)
          (value recipient)
          (value message_id)
          (value envelope)
          generation
          s
          t
          m
        ⊎ Repeated env
            (value sender)
            (value recipient)
            (value message_id)
            (value envelope)
            generation
            s
            t
            m
  send_message_effect env sender recipient device message_id generation envelope s t m h =
      let x =
        send_message-Sent env sender recipient device message_id generation envelope s t m h in
      rw
        (
          ← (require_address-ok sender "sender" x.a x.from).0,
          ← (require_address-ok recipient "recipient" x.b x.to).0,
          ← require_bytes-ok message_id 32 "message id" x.id x.named,
          ← require_bytes-ok envelope 4096 "encrypted envelope" x.e x.body,
        )
        (sent_cases env x.a x.b x.id x.e generation s t m x.branch)

  -- After a successful call of `send_message`, the same call made again, at any later time and with
  -- any device that is authorized, under the same hash function and on the state that the first has
  -- left, succeeds with the same
  -- message and changes nothing: no second message is stored and no second unit is consumed.
  pub send_message_retry :
      (env later : Env) (sender recipient device device' message_id : Option Bytes) (generation : ℕ)
      (envelope : Option Bytes) (s t : State) (m : Message)
      → send_message env sender recipient device message_id generation envelope s ≡ ok (t, m)
      → authorize later (value sender) (value recipient) device' t ≡ ok tt
      → later.hash ≡ env.hash
      → send_message later sender recipient device' message_id generation envelope t ≡ ok (t, m)
  unfolding send_message
  send_message_retry env later sender recipient device device' message_id generation envelope s t m
        h k e =
      let x =
        send_message-Sent env sender recipient device message_id generation envelope s t m h in
      let (found, again) =
        send_again_stored env x.a x.b x.id x.e generation s t m
          (sent_cases env x.a x.b x.id x.e generation s t m x.branch) in
      let k' : authorize later x.a x.b device' t ≡ ok tt =
        rw
          (
            (require_address-ok sender "sender" x.a x.from).0,
            (require_address-ok recipient "recipient" x.b x.to).0,
          )
          k in
      rw (x.from, x.to, k', x.named, x.long, x.body, found, e) again
