-- ===== src/Network/Charges.antt =====
-- What the methods that charge an account do to the state of the token contract.
use open_social_protocol.Prelude.{ℕ, String, ◌≡◌, false, Option, none, some, arith}
use open_social_protocol.Chain.{Bytes, Sdk, Env, Usage, ok, >>=-eq-ok}
use open_social_protocol.Chain.Util.{is_empty, value, require_address}
use open_social_protocol.Chain.Actor.{require_authorized}
use open_social_protocol.Messaging
use open_social_protocol.Messaging.Conversations.{request_conversation}
use open_social_protocol.Relationships
use open_social_protocol.Relationships.Friends.{request_friend}
use open_social_protocol.Relationships.Blocks.{follow}
use open_social_protocol.Publications
use open_social_protocol.Publications.Checks.{identity_contract, reserve_idempotency_key}
use open_social_protocol.Publications.Arguments.{PublishArguments, Checked, check_arguments}
use open_social_protocol.Publications.Publish.{
  Written, existing_post, capability, first_version, new_version, write_version, publish_version,
  publish,
}
use open_social_protocol.Publications.Methods.{react}
use open_social_protocol.Publications.Calls.{check_arguments-ArgumentsChecked}

module _ ⦃sdk : Sdk⦄ ⦃usage : Usage⦄ where
  request_friend_paid :
      (env : Env) (requester recipient device : Option Bytes) (s t : Relationships.State.State)
      → is_empty s.token ≡ false
      → request_friend env requester recipient device s ≡ ok t
      → (a : Bytes) × (require_address requester "requester" ≡ ok a)
        × (usage.consume (value s.token) a 1 s.ledger ≡ some t.ledger)
  unfolding request_friend Relationships.Checks.consume
  request_friend_paid env requester recipient device s t e h = ground arith

  follow_paid :
      (env : Env) (follower target device : Option Bytes) (s t : Relationships.State.State)
      → is_empty s.token ≡ false
      → follow env follower target device s ≡ ok t
      → (a : Bytes) × (require_address follower "follower" ≡ ok a)
        × (usage.consume (value s.token) a 1 s.ledger ≡ some t.ledger)
  unfolding follow Relationships.Checks.consume
  follow_paid env follower target device s t e h = ground arith

  react_paid :
      (env : Env) (actor id device : Option Bytes) (kind : ℕ) (s t : Publications.State.State)
      → is_empty s.token ≡ false
      → react env actor id device kind false s ≡ ok t
      → (a : Bytes) × (require_address actor "actor" ≡ ok a)
        × (usage.consume (value s.token) a 1 s.ledger ≡ some t.ledger)
  unfolding react Publications.Checks.consume
  react_paid env actor id device kind s t e h = ground arith

  request_conversation_paid :
      (env : Env) (actor peer device : Option Bytes) (generation : ℕ) (s t : Messaging.State.State)
      (d : Messaging.State.Dependencies)
      → s.config ≡ some d
      → request_conversation env actor peer device generation s ≡ ok t
      → (a : Bytes) × (require_address actor "actor" ≡ ok a)
        × (usage.consume d.token a 1 s.ledger ≡ some t.ledger)
  unfolding request_conversation Messaging.Checks.consume Messaging.Checks.deps
  request_conversation_paid env actor peer device generation s t d e h = ground arith

  first_version_free :
      (env : Env) (args : PublishArguments) (c : Checked) (s : Publications.State.State)
      (w : Written)
      → first_version env args c s ≡ ok w
      → (w.state.token ≡ s.token) × (w.state.ledger ≡ s.ledger)
  unfolding first_version reserve_idempotency_key
  first_version_free env args c s w h = ground arith

  new_version_free :
      (env : Env) (args : PublishArguments) (c : Checked) (old : Publications.State.PostRecord)
      (s : Publications.State.State) (w : Written)
      → new_version env args c old s ≡ ok w
      → (w.state.token ≡ s.token) × (w.state.ledger ≡ s.ledger)
  unfolding new_version reserve_idempotency_key
  new_version_free env args c old s w h = ground arith

  write_version_free :
      (env : Env) (args : PublishArguments) (c : Checked)
      (existing : Option Publications.State.PostRecord) (s : Publications.State.State) (w : Written)
      → write_version env args c existing s ≡ ok w
      → (w.state.token ≡ s.token) × (w.state.ledger ≡ s.ledger)
  unfolding write_version
  write_version_free env args c none s w h = first_version_free env args c s w h
  write_version_free env args c (some old) s w h = new_version_free env args c old s w h

  consume_paid :
      (a : Bytes) (s t : Publications.State.State)
      → is_empty s.token ≡ false
      → Publications.Checks.consume a s ≡ ok t
      → usage.consume (value s.token) a 1 s.ledger ≡ some t.ledger
  unfolding Publications.Checks.consume
  consume_paid a s t e h = ground arith

  -- `publish` charges its author, once all else has been written.
  publish_paid :
      (env : Env) (args : PublishArguments) (s t : Publications.State.State)
      → is_empty s.token ≡ false
      → publish env args s ≡ ok t
      → (a : Bytes) × (require_address args.author "author" ≡ ok a)
        × (usage.consume (value s.token) a 1 s.ledger ≡ some t.ledger)
  unfolding publish publish_version
  publish_paid env args s t e h =
      let (c, checked, after) = >>=-eq-ok (check_arguments env args) _ h in
      let (existing, found, last) =
        >>=-eq-ok (existing_post s c.id args.previous_version) _ after in
      let (signer, _, next) =
        >>=-eq-ok
          (require_authorized env (identity_contract s) c.author args.device
            (capability existing c.requested))
          _ last in
      let (w, written, rest) = >>=-eq-ok (write_version env args c existing s) _ next in
      let (s', paid, end) = >>=-eq-ok (Publications.Checks.consume c.author w.state) _ rest in
      let (token, ledger) = write_version_free env args c existing s w written in
      let x = consume_paid c.author w.state s' (rw token e) paid in
      (
        c.author,
        (check_arguments-ArgumentsChecked env args c checked).from,
        ground (arith, token, ledger, x),
      )

  -- A successful call of a method that charges: the address of the token contract, the state behind
  -- it before and after, and the account that pays.
  pub data PaidCall (env : Env)
      : Option Bytes → usage.Ledger → usage.Ledger → Option Bytes → Type 0 where
    requests :
        (requester recipient device : Option Bytes) (s t : Relationships.State.State)
        → request_friend env requester recipient device s ≡ ok t
        → PaidCall env s.token s.ledger t.ledger requester
    follows :
        (follower target device : Option Bytes) (s t : Relationships.State.State)
        → follow env follower target device s ≡ ok t
        → PaidCall env s.token s.ledger t.ledger follower
    reacts :
        (actor id device : Option Bytes) (kind : ℕ) (s t : Publications.State.State)
        → react env actor id device kind false s ≡ ok t
        → PaidCall env s.token s.ledger t.ledger actor
    publishes :
        (args : PublishArguments) (s t : Publications.State.State)
        → publish env args s ≡ ok t
        → PaidCall env s.token s.ledger t.ledger args.author
    converses :
        (actor peer device : Option Bytes) (generation : ℕ) (s t : Messaging.State.State)
        (d : Messaging.State.Dependencies)
        → s.config ≡ some d
        → request_conversation env actor peer device generation s ≡ ok t
        → PaidCall env (some d.token) s.ledger t.ledger actor

  -- What a call with a token contract has charged.
  pub record Charged (token : Option Bytes) (before after : usage.Ledger) (account : Option Bytes)
      : Type 0 where
    pub payer : Bytes
    pub what : String
    pub address : require_address account what ≡ ok payer
    pub consumed : usage.consume (value token) payer 1 before ≡ some after

  pub PaidCall-Charged :
      (env : Env) (token : Option Bytes) (before after : usage.Ledger) (account : Option Bytes)
      → is_empty token ≡ false
      → PaidCall env token before after account
      → Charged token before after account
  PaidCall-Charged env token before after account e (requests requester recipient device s t h) =
      let (a, from, paid) = request_friend_paid env requester recipient device s t e h in
      record { payer = a; what = "requester"; address = from; consumed = paid }
  PaidCall-Charged env token before after account e (follows follower target device s t h) =
      let (a, from, paid) = follow_paid env follower target device s t e h in
      record { payer = a; what = "follower"; address = from; consumed = paid }
  PaidCall-Charged env token before after account e (reacts actor id device kind s t h) =
      let (a, from, paid) = react_paid env actor id device kind s t e h in
      record { payer = a; what = "actor"; address = from; consumed = paid }
  PaidCall-Charged env token before after account e (publishes args s t h) =
      let (a, from, paid) = publish_paid env args s t e h in
      record { payer = a; what = "author"; address = from; consumed = paid }
  PaidCall-Charged env token before after account e
        (converses actor peer device generation s t d set h) =
      let (a, from, paid) =
        request_conversation_paid env actor peer device generation s t d set h in
      record { payer = a; what = "actor"; address = from; consumed = paid }
