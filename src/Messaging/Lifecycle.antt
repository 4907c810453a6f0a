-- ===== src/Messaging/Lifecycle.antt =====
-- What the methods do to a conversation, over any history of calls.
use open_social_protocol.Prelude.{
  ℕ, ◌+◌, ◌≤◌, ◌<◌, ◌≡◌, ◌⊎◌, inl, inr, refl, ap, subst, true, false, Option, some, arith,
  Bool-cases,
}
use open_social_protocol.Chain.{Usage, Bytes, Sdk, Env, ok, add64}
use open_social_protocol.Chain.Util.{if_less, compare, require_address, value}
use open_social_protocol.Chain.Util.Require.{require_address-ok}
use open_social_protocol.Messaging.State.{Conversation, Message, State, requested, accepted, closed}
use open_social_protocol.Messaging.Checks.{pair, authorize, consume, deps, set_dependencies}
use open_social_protocol.Messaging.Conversations.{
  may_request, generation_of, sequence_of, request_conversation, accept_conversation,
  close_conversation,
}
use open_social_protocol.Messaging.Messages.{advance, send_message}
use open_social_protocol.Messaging.Delivery.{send_message_effect}

-- One change of a stored conversation.
pub data Move : Option Conversation → Conversation → Type 0 where
  opens :
      {old : Option Conversation} {c : Conversation}
      → may_request old ≡ true
      → c.status ≡ requested
      → c.generation ≡ generation_of old + 1
      → c.sequence ≡ sequence_of old
      → Move old c
  accepts :
      {o c : Conversation}
      → o.status ≡ requested
      → c.status ≡ accepted
      → c.generation ≡ o.generation
      → c.sequence ≡ o.sequence
      → Move (some o) c
  closes :
      {o c : Conversation}
      → c.status ≡ closed
      → c.generation ≡ o.generation
      → c.sequence ≡ o.sequence
      → Move (some o) c
  sends :
      {o c : Conversation}
      → o.status ≡ accepted
      → c.status ≡ accepted
      → c.generation ≡ o.generation
      → c.sequence ≡ o.sequence + 1
      → Move (some o) c

-- The generation and the sequence never go back, and within a generation what is closed stays closed.
pub record Forward (old new : Option Conversation) : Type 0 where
  pub generation : generation_of old ≤ generation_of new
  pub sequence : sequence_of old ≤ sequence_of new
  pub stays_closed :
      (generation_of old < generation_of new) ⊎ (may_request old ≡ false) ⊎ (may_request new ≡ true)

Move-Forward : (old : Option Conversation) (c : Conversation) → Move old c → Forward old (some c)
Move-Forward old c (opens h a b d) = ground arith
Move-Forward (some o) c (accepts h a b d) = ground arith
Move-Forward (some o) c (closes a b d) = ground arith
Move-Forward (some o) c (sends h a b d) = ground arith

Forward-refl : (old : Option Conversation) → Forward old old
Forward-refl old = ground arith

Forward-trans : (x y z : Option Conversation) → Forward x y → Forward y z → Forward x z
Forward-trans x y z f g = ground arith

module _ ⦃sdk : Sdk⦄ ⦃usage : Usage⦄ where
  open sdk use {get, put, equal, get-put, equal_iff}

  -- What a call does to the conversations.
  pub record Written (s t : State) : Type 0 where
    pub key : Bytes
    pub c : Conversation
    pub conversations : t.conversations ≡ put s.conversations key c
    pub move : Move (get s.conversations key) c

  -- The conversation that `request_conversation` stores.
  abbrev pub invitation : Env → Bytes → Bytes → ℕ → Option Conversation → Conversation
  invitation env a b generation old = record {
    a = if_less (compare a b) a b;
    b = if_less (compare a b) b a;
    requester = a;
    status = requested;
    generation = add64 generation 1;
    sequence = sequence_of old;
    updated_at = env.now;
  }

  pub record WasRequested (env : Env) (actor peer device : Option Bytes) (generation : ℕ)
      (s t : State) : Type 0 where
    pub a : Bytes
    pub b : Bytes
    pub from : require_address actor "actor" ≡ ok a
    pub to : require_address peer "peer" ≡ ok b
    pub free : may_request (get s.conversations (pair a b)) ≡ true
    pub current : generation ≡ generation_of (get s.conversations (pair a b))
    pub conversations :
        t.conversations
        ≡ put s.conversations
            (pair a b)
            (invitation env a b generation (get s.conversations (pair a b)))
    pub next : add64 generation 1 ≡ generation + 1

  request_conversation-WasRequested :
      (env : Env) (actor peer device : Option Bytes) (generation : ℕ) (s t : State)
      → request_conversation env actor peer device generation s ≡ ok t
      → WasRequested env actor peer device generation s t
  unfolding request_conversation consume deps
  request_conversation-WasRequested env actor peer device generation s t h = ground arith

  -- An acceptance: the conversation was requested, by the peer and not by the actor, and in the
  -- generation that the call names.
  pub record WasAccepted (env : Env) (actor peer device : Option Bytes) (generation : ℕ)
      (s t : State) : Type 0 where
    pub a : Bytes
    pub b : Bytes
    pub from : require_address actor "actor" ≡ ok a
    pub to : require_address peer "peer" ≡ ok b
    pub allowed : authorize env a b device s ≡ ok tt
    pub o : Conversation
    pub stored : get s.conversations (pair a b) ≡ some o
    pub invited : o.status ≡ requested
    pub current : o.generation ≡ generation
    pub by_peer : equal o.requester b ≡ true
    pub conversations :
        t.conversations
        ≡ put s.conversations (pair a b) (record o { status = accepted; updated_at = env.now })

  accept_conversation-WasAccepted :
      (env : Env) (actor peer device : Option Bytes) (generation : ℕ) (s t : State)
      → accept_conversation env actor peer device generation s ≡ ok t
      → WasAccepted env actor peer device generation s t
  unfolding accept_conversation
  accept_conversation-WasAccepted env actor peer device generation s t h = ground arith

  record WasClosed (env : Env) (actor peer : Option Bytes) (s t : State) : Type 0 where
    a : Bytes
    b : Bytes
    from : require_address actor "actor" ≡ ok a
    to : require_address peer "peer" ≡ ok b
    o : Conversation
    stored : get s.conversations (pair a b) ≡ some o
    conversations :
        t.conversations
        ≡ put s.conversations (pair a b) (record o { status = closed; updated_at = env.now })

  close_conversation-WasClosed :
      (env : Env) (actor peer device : Option Bytes) (generation : ℕ) (s t : State)
      → close_conversation env actor peer device generation s ≡ ok t
      → WasClosed env actor peer s t
  unfolding close_conversation
  close_conversation-WasClosed env actor peer device generation s t h = ground arith

  -- One successful call of a method that writes.
  pub data Step (env : Env) (s t : State) : Type 0 where
    configures :
        (identity relationships token : Option Bytes)
        → set_dependencies env identity relationships token s ≡ ok t
        → Step env s t
    requests :
        (actor peer device : Option Bytes) (generation : ℕ)
        → request_conversation env actor peer device generation s ≡ ok t
        → Step env s t
    accepts :
        (actor peer device : Option Bytes) (generation : ℕ)
        → accept_conversation env actor peer device generation s ≡ ok t
        → Step env s t
    closes :
        (actor peer device : Option Bytes) (generation : ℕ)
        → close_conversation env actor peer device generation s ≡ ok t
        → Step env s t
    sends :
        (sender recipient device message_id : Option Bytes) (generation : ℕ)
        (envelope : Option Bytes) (m : Message)
        → send_message env sender recipient device message_id generation envelope s ≡ ok (t, m)
        → Step env s t

  -- Any number of calls, each with its own view of the chain.
  pub data Reach (s : State) : State → Type 0 where
    here : Reach s s
    next : {t u : State} (env : Env) → Reach s t → Step env t u → Reach s u

  set_dependencies-conversations :
      (env : Env) (identity relationships token : Option Bytes) (s t : State)
      → set_dependencies env identity relationships token s ≡ ok t
      → t.conversations ≡ s.conversations
  unfolding set_dependencies
  set_dependencies-conversations env identity relationships token s t h = ground arith

  on_conversations :
      (env : Env) (s t : State) → Step env s t → (t.conversations ≡ s.conversations) ⊎ Written s t
  on_conversations env s t (configures i r k e) =
      inl (set_dependencies-conversations env i r k s t e)
  on_conversations env s t (requests actor peer device generation e) =
      let x = request_conversation-WasRequested env actor peer device generation s t e in
      inr (record {
        key = pair x.a x.b;
        c = invitation env x.a x.b generation (get s.conversations (pair x.a x.b));
        conversations = x.conversations;
        move = Move.opens x.free refl (omega (arith, x.next, x.current)) refl;
      })
  on_conversations env s t (accepts actor peer device generation e) =
      let x = accept_conversation-WasAccepted env actor peer device generation s t e in
      inr (record {
        key = pair x.a x.b;
        c = record x.o { status = accepted; updated_at = env.now };
        conversations = x.conversations;
        move = rw x.stored (Move.accepts x.invited refl refl refl);
      })
  on_conversations env s t (closes actor peer device generation e) =
      let x = close_conversation-WasClosed env actor peer device generation s t e in
      inr (record {
        key = pair x.a x.b;
        c = record x.o { status = closed; updated_at = env.now };
        conversations = x.conversations;
        move = rw x.stored (Move.closes refl refl refl);
      })
  on_conversations env s t (sends sender recipient device id generation envelope m e) =
      elim (send_message_effect env sender recipient device id generation envelope s t m e) [
        | inl x ↦ inr (record {
          key = pair (value sender) (value recipient);
          c = advance env x.c;
          conversations = x.conversations;
          move = rw x.open_before (Move.sends x.was_accepted x.was_accepted refl x.one_more);
        })
        | inr x ↦ inl (ap (λ (z : State). z.conversations) x.unchanged)
      ]

  Step-Forward :
      (env : Env) (s t : State) (k : Bytes)
      → Step env s t
      → Forward (get s.conversations k) (get t.conversations k)
  Step-Forward env s t k st = elim (on_conversations env s t st) [
    | inl e ↦ rw e (Forward-refl (get s.conversations k))
    | inr w ↦ elim (Bool-cases (equal w.key k)) [
      | inl hit ↦
          rw (w.conversations, get-put, hit)
            (subst (λ j. Forward (get s.conversations j) (some w.c)) ((equal_iff w.key k).0 hit)
              (Move-Forward (get s.conversations w.key) w.c w.move))
      | inr other ↦ rw (w.conversations, get-put, other) (Forward-refl (get s.conversations k))
    ]
  ]

  -- Over any history of calls the generation and the message sequence of a conversation never go
  -- back, and as long as the generation is the same, a conversation that is absent or closed stays so.
  pub Reach-conversation :
      {s t : State} (k : Bytes)
      → Reach s t
      → Forward (get s.conversations k) (get t.conversations k)
  Reach-conversation {s} k here = Forward-refl (get s.conversations k)
  Reach-conversation {s} k (next {t} {u} env r st) =
      Forward-trans (get s.conversations k) (get t.conversations k) (get u.conversations k)
        (Reach-conversation k r) (Step-Forward env t u k st)

  authorize-distinct :
      (env : Env) (a b : Bytes) (device : Option Bytes) (s : State)
      → authorize env a b device s ≡ ok tt
      → equal a b ≡ false
  unfolding authorize
  authorize-distinct env a b device s h = ground arith

  -- A call of `accept_conversation` succeeds only where the peer has requested the conversation, in
  -- the generation that the call names, and not for the one who requested it: the requester is the
  -- peer, and differs from the actor.
  pub accept_by_recipient :
      (env : Env) (actor peer device : Option Bytes) (generation : ℕ) (s t : State)
      → accept_conversation env actor peer device generation s ≡ ok t
      → (o : Conversation) × (get s.conversations (pair (value actor) (value peer)) ≡ some o)
        × (o.status ≡ requested)
        × (o.generation ≡ generation)
        × (o.requester ≡ value peer)
        × (equal o.requester (value actor) ≡ false)
  accept_by_recipient env actor peer device generation s t h =
      let x = accept_conversation-WasAccepted env actor peer device generation s t h in
      let b = (equal_iff x.o.requester x.b).0 x.by_peer in
      let apart = authorize-distinct env x.a x.b device s x.allowed in
      rw
        (
          ← (require_address-ok actor "actor" x.a x.from).0,
          ← (require_address-ok peer "peer" x.b x.to).0,
        )
        (
          x.o,
          x.stored,
          x.invited,
          x.current,
          b,
          ground (arith, equal_iff x.o.requester x.a, equal_iff x.a x.b),
        )
