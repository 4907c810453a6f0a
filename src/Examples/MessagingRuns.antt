-- ===== src/Examples/MessagingRuns.antt =====
-- The messaging contract on concrete inputs.
use open_social_protocol.Prelude.{◌≡◌, ◌⊎◌, refl, some, none, false, [], ◌∷◌, replicate, Option}
use open_social_protocol.Chain.{Bytes, ok}
use open_social_protocol.Chain.Util.{require_bytes, compare, require_address}
use open_social_protocol.Messaging.State.{Conversation, Message, State, fresh, requested}
use open_social_protocol.Messaging.Checks.{
  consume, unblocked, deps, pair, set_dependencies, authorize,
}
use open_social_protocol.Messaging.Conversations.{request_conversation, accept_conversation}
use open_social_protocol.Messaging.Messages.{send_new, send_message}
use open_social_protocol.Messaging.Pairs.{pair_sym, pair_injective}
use open_social_protocol.Messaging.Delivery.{
  Delivered, Repeated, send_message_effect, send_message_retry,
}
use open_social_protocol.Messaging.Lifecycle.{
  Step, here, next, Forward, Reach-conversation, accept_by_recipient,
}
use open_social_protocol.Chain.Actor.{exists, require_authorized}
use open_social_protocol.Examples.Mock.{mock, ledger, address, chain_at, after}

abbrev alice : Option Bytes
alice = some (address 1)

abbrev bob : Option Bytes
bob = some (address 2)

abbrev id : Option Bytes
id = some (replicate 32 7)

abbrev envelope : Option Bytes
envelope = some (1 ∷ 2 ∷ 3 ∷ [])

abbrev configured : State
configured = after (fresh 10) (
    set_dependencies (chain_at 1) (some (address 3)) (some (address 4)) (some (address 5))
      (fresh 10))

abbrev invited : State
invited = after configured (request_conversation (chain_at 2) alice bob none 0 configured)

invited-ok : request_conversation (chain_at 2) alice bob none 0 configured ≡ ok invited
unfolding set_dependencies request_conversation require_address authorize deps require_authorized
    unblocked exists consume
invited-ok = refl

abbrev agreed : State
agreed = after invited (accept_conversation (chain_at 3) bob alice none 1 invited)

agreed-ok : accept_conversation (chain_at 3) bob alice none 1 invited ≡ ok agreed
unfolding set_dependencies request_conversation accept_conversation require_address authorize deps
    require_authorized unblocked exists consume pair compare
agreed-ok = refl

abbrev sent : State × Message
sent =
    after
      (
        agreed,
        record {
          sender = [];
          recipient = [];
          message_id = [];
          content_hash = [];
          generation = 0;
          sequence = 0;
          timestamp = 0;
        },
      )
      (send_message (chain_at 4) alice bob none id 1 envelope agreed)

sent-ok : send_message (chain_at 4) alice bob none id 1 envelope agreed ≡ ok (sent.0, sent.1)
unfolding set_dependencies request_conversation accept_conversation send_message require_address
    authorize deps require_authorized unblocked exists consume pair compare require_bytes send_new
sent-ok = refl

still_allowed : authorize (chain_at 9) (address 1) (address 2) none sent.0 ≡ ok tt
unfolding set_dependencies request_conversation accept_conversation send_message authorize
    require_address deps require_authorized unblocked exists consume pair compare require_bytes
    send_new
still_allowed = refl

send_message_retry_example :
    send_message (chain_at 9) alice bob none id 1 envelope sent.0 ≡ ok (sent.0, sent.1)
send_message_retry_example =
    send_message_retry (chain_at 4) (chain_at 9) alice bob none none id 1 envelope agreed sent.0
      sent.1 sent-ok still_allowed refl

send_message_effect_example :
    Delivered
      (chain_at 4)
      (address 1)
      (address 2)
      (replicate 32 7)
      (1 ∷ 2 ∷ 3 ∷ [])
      1
      agreed
      sent.0
      sent.1
    ⊎ Repeated
        (chain_at 4)
        (address 1)
        (address 2)
        (replicate 32 7)
        (1 ∷ 2 ∷ 3 ∷ [])
        1
        agreed
        sent.0
        sent.1
send_message_effect_example =
    send_message_effect (chain_at 4) alice bob none id 1 envelope agreed sent.0 sent.1 sent-ok

accept_by_recipient_example :
    (o : Conversation) × (mock.get invited.conversations (pair (address 2) (address 1)) ≡ some o)
    × (o.status ≡ requested)
    × (o.generation ≡ 1)
    × (o.requester ≡ address 1)
    × (mock.equal o.requester (address 2) ≡ false)
accept_by_recipient_example =
    accept_by_recipient (chain_at 3) bob alice none 1 invited agreed agreed-ok

Reach-conversation_example :
    Forward
      (mock.get configured.conversations (pair (address 1) (address 2)))
      (mock.get sent.0.conversations (pair (address 1) (address 2)))
Reach-conversation_example = Reach-conversation (pair (address 1) (address 2)) (
    next (chain_at 4)
      (next (chain_at 3) (next (chain_at 2) here (Step.requests alice bob none 0 invited-ok))
        (Step.accepts bob alice none 1 agreed-ok))
      (Step.sends alice bob none id 1 envelope sent.1 sent-ok))

pair_injective_example :
    ((address 1 ≡ address 2) × (address 2 ≡ address 1))
    ⊎ ((address 1 ≡ address 1) × (address 2 ≡ address 2))
pair_injective_example =
    pair_injective (address 1) (address 2) (address 2) (address 1) refl refl refl
      (pair_sym (address 1) (address 2))
