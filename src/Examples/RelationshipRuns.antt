-- ===== src/Examples/RelationshipRuns.antt =====
-- The relationships contract on concrete inputs.
use open_social_protocol.Prelude.{◌≡◌, ◌⊎◌, ◌+◌, refl, some, none, true, Option}
use open_social_protocol.Chain.{Bytes, ok}
use open_social_protocol.Chain.Util.{compare, is_empty, require_address}
use open_social_protocol.Relationships.State.{State, fresh}
use open_social_protocol.Relationships.Checks.{
  is_following, advance_epoch, optional_key_package_ref, consume, require_not_blocked,
  identity_contract, pair_key, set_identity_contract, has_blocked, load_audience,
}
use open_social_protocol.Relationships.Friends.{
  next_nonce, request_friend, accept_friend, remove_friend,
}
use open_social_protocol.Relationships.Blocks.{was_active, block, follow, end_edge, rotate_target}
use open_social_protocol.Relationships.Separation.{Apart}
use open_social_protocol.Relationships.History.{
  Step, here, next, block_keeps-Apart, Consented, Step-Consented,
}
use open_social_protocol.Relationships.Rotation.{remove_friend_rotates}
use open_social_protocol.Chain.Actor.{exists, require_authorized}
use open_social_protocol.Examples.Mock.{mock, ledger, address, chain_at, after}

abbrev alice : Option Bytes
alice = some (address 1)

abbrev bob : Option Bytes
bob = some (address 2)

abbrev configured : State
configured = after (fresh 10) (set_identity_contract (chain_at 1) (some (address 3)) (fresh 10))

configured-ok : set_identity_contract (chain_at 1) (some (address 3)) (fresh 10) ≡ ok configured
unfolding set_identity_contract require_address
configured-ok = refl

abbrev asked : State
asked = after configured (request_friend (chain_at 2) alice bob none configured)

asked-ok : request_friend (chain_at 2) alice bob none configured ≡ ok asked
unfolding request_friend require_address require_authorized identity_contract set_identity_contract
    exists require_not_blocked has_blocked next_nonce consume
asked-ok = refl

abbrev friends : State
friends = after asked (accept_friend (chain_at 3) bob alice none none asked)

friends-ok : accept_friend (chain_at 3) bob alice none none asked ≡ ok friends
unfolding accept_friend require_address require_authorized identity_contract request_friend
    set_identity_contract exists require_not_blocked has_blocked next_nonce consume
    optional_key_package_ref pair_key compare
friends-ok = refl

abbrev following : State
following = after friends (follow (chain_at 4) bob alice none friends)

following-ok : follow (chain_at 4) bob alice none friends ≡ ok following
unfolding follow require_address require_authorized identity_contract accept_friend request_friend
    set_identity_contract exists require_not_blocked has_blocked next_nonce consume
    optional_key_package_ref pair_key compare is_following
following-ok = refl

abbrev blocked : State
blocked = after following (block (chain_at 5) alice bob following)

blocked-ok : block (chain_at 5) alice bob following ≡ ok blocked
unfolding block require_address require_authorized identity_contract follow accept_friend
    request_friend set_identity_contract exists require_not_blocked has_blocked next_nonce consume
    optional_key_package_ref pair_key compare is_following is_empty end_edge rotate_target
    advance_epoch load_audience
blocked-ok = refl

has_blocked-ok : has_blocked blocked (address 1) (address 2) ≡ true
unfolding block require_address require_authorized identity_contract follow accept_friend
    request_friend set_identity_contract exists require_not_blocked has_blocked next_nonce consume
    optional_key_package_ref pair_key compare is_following is_empty end_edge rotate_target
    advance_epoch load_audience
has_blocked-ok = refl

was_active-ok : was_active (mock.get friends.edges (pair_key (address 2) (address 1))) ≡ true
unfolding accept_friend require_address require_authorized identity_contract request_friend
    set_identity_contract exists require_not_blocked has_blocked next_nonce consume
    optional_key_package_ref pair_key compare
was_active-ok = refl

abbrev parted : State
parted = after following (remove_friend (chain_at 6) alice bob none following)

parted-ok : remove_friend (chain_at 6) alice bob none following ≡ ok parted
unfolding remove_friend block require_address require_authorized identity_contract follow
    accept_friend request_friend set_identity_contract exists require_not_blocked has_blocked
    next_nonce consume optional_key_package_ref pair_key compare is_following is_empty end_edge
    rotate_target advance_epoch load_audience
parted-ok = refl

block_keeps-Apart_example : Apart blocked (address 1) (address 2)
block_keeps-Apart_example =
    block_keeps-Apart blocked 10 (address 1) (address 2) refl refl
      (next (chain_at 5)
        (next (chain_at 4)
          (next (chain_at 3)
            (next (chain_at 2)
              (next (chain_at 1) here (Step.sets_identity (some (address 3)) configured-ok))
              (Step.requests alice bob none asked-ok))
            (Step.accepts bob alice none none friends-ok))
          (Step.follows bob alice none following-ok))
        (Step.blocks alice bob blocked-ok))
      has_blocked-ok

Step-Consented_example :
    (was_active (mock.get asked.edges (pair_key (address 2) (address 1))) ≡ true)
    ⊎ Consented (chain_at 3) asked (pair_key (address 2) (address 1))
Step-Consented_example =
    Step-Consented (chain_at 3) asked friends (pair_key (address 2) (address 1))
      (Step.accepts bob alice none none friends-ok) was_active-ok

remove_friend_rotates_example :
    ((load_audience parted (address 1)).epoch ≡ (load_audience following (address 1)).epoch + 1)
    × ((load_audience parted (address 2)).epoch ≡ (load_audience following (address 2)).epoch + 1)
    × ((j : Bytes)
        → (mock.equal (address 1) j ≡ true)
          ⊎ (mock.equal (address 2) j ≡ true)
          ⊎ (load_audience parted j ≡ load_audience following j))
remove_friend_rotates_example =
    remove_friend_rotates (chain_at 6) alice bob none following parted parted-ok
