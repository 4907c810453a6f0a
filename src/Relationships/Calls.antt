-- ===== src/Relationships/Calls.antt =====
-- What a successful call of each method has found, and what it writes.
use open_social_protocol.Prelude.{ℕ, ◌+◌, ◌≡◌, Bool, true, false, Option, some, arith}
use open_social_protocol.Chain.{Bytes, Sdk, Env, Usage, ok}
use open_social_protocol.Chain.Util.{compare, if_less, require_address}
use open_social_protocol.Chain.Actor
use open_social_protocol.Chain.Actor.{require_authorized}
use open_social_protocol.Relationships.State.{pending, active, inactive, RelationshipRecord, State}
use open_social_protocol.Relationships.Checks.{
  pair_key, directed_key, set_token_contract, set_identity_contract, identity_contract, consume,
  has_blocked, require_not_blocked, load_audience, advance_epoch,
}
use open_social_protocol.Relationships.Friends.{
  is_pending, is_active, with_status, next_nonce, request_friend, accept_friend, remove_friend,
}
use open_social_protocol.Relationships.Blocks.{
  end_edge, rotate_target, block, unblock, follow, unfollow, rotate_audience,
}

module _ ⦃sdk : Sdk⦄ ⦃usage : Usage⦄ where
  open sdk use {get, put, remove, equal}

  -- The four maps are as they were, but for those of the audiences.
  pub record SameEdges (s t : State) : Type 0 where
    pub edges : t.edges ≡ s.edges
    pub blocks : t.blocks ≡ s.blocks
    pub follows : t.follows ≡ s.follows

  pub consume-SameEdges : (a : Bytes) (s t : State) → consume a s ≡ ok t → SameEdges s t
  unfolding consume
  consume-SameEdges a s t h = ground arith

  pub set_token_contract-SameEdges :
      (env : Env) (address : Option Bytes) (s t : State)
      → set_token_contract env address s ≡ ok t
      → SameEdges s t
  unfolding set_token_contract
  set_token_contract-SameEdges env address s t h = ground arith

  pub set_identity_contract-SameEdges :
      (env : Env) (address : Option Bytes) (s t : State)
      → set_identity_contract env address s ≡ ok t
      → SameEdges s t
  unfolding set_identity_contract
  set_identity_contract-SameEdges env address s t h = ground arith

  pub rotate_audience-SameEdges :
      (env : Env) (actor device : Option Bytes) (s t : State)
      → rotate_audience env actor device s ≡ ok t
      → SameEdges s t
  unfolding rotate_audience advance_epoch
  rotate_audience-SameEdges env actor device s t h = ground arith

  -- Neither has blocked the other.
  pub record Unblocked (s : State) (a b : Bytes) : Type 0 where
    pub by_first : has_blocked s a b ≡ false
    pub by_second : has_blocked s b a ≡ false

  pub require_not_blocked-Unblocked :
      (s : State) (a b : Bytes) (what : _)
      → require_not_blocked s a b what ≡ ok tt
      → Unblocked s a b
  unfolding require_not_blocked
  require_not_blocked-Unblocked s a b what h = ground arith

  pub record Requested (env : Env) (requester recipient : Option Bytes) (s t : State) : Type 0 where
    pub a : Bytes
    pub b : Bytes
    pub nonce : ℕ
    pub from : require_address requester "requester" ≡ ok a
    pub to : require_address recipient "recipient" ≡ ok b
    pub unblocked : require_not_blocked s a b "recipient" ≡ ok tt
    pub free : next_nonce (get s.edges (pair_key a b)) ≡ ok nonce
    pub edges :
        t.edges
        ≡ put s.edges (pair_key a b) (record {
          a = if_less (compare a b) a b;
          b = if_less (compare a b) b a;
          status = pending;
          requester = a;
          nonce = nonce;
          updated_at = env.now;
        })
    pub blocks : t.blocks ≡ s.blocks
    pub follows : t.follows ≡ s.follows

  pub request_friend-Requested :
      (env : Env) (requester recipient device : Option Bytes) (s t : State)
      → request_friend env requester recipient device s ≡ ok t
      → Requested env requester recipient s t
  unfolding request_friend consume
  request_friend-Requested env requester recipient device s t h = ground arith

  pub record Accepted (env : Env) (approver requester device : Option Bytes) (s t : State)
      : Type 0 where
    pub a : Bytes
    pub b : Bytes
    pub signer : Bytes
    pub rec : RelationshipRecord
    pub from : require_address approver "approver" ≡ ok a
    pub to : require_address requester "requester" ≡ ok b
    pub signed :
        require_authorized env (identity_contract s) a device Actor.relationships ≡ ok signer
    pub distinct : equal a b ≡ false
    pub unblocked : require_not_blocked s a b "requester" ≡ ok tt
    pub found : get s.edges (pair_key a b) ≡ some rec
    pub pending_before : is_pending rec.status ≡ true
    pub by_other : equal rec.requester b ≡ true
    pub edges : t.edges ≡ put s.edges (pair_key a b) (with_status active env.now rec)
    pub blocks : t.blocks ≡ s.blocks
    pub follows : t.follows ≡ s.follows

  pub accept_friend-Accepted :
      (env : Env) (approver requester device ref : Option Bytes) (s t : State)
      → accept_friend env approver requester device ref s ≡ ok t
      → Accepted env approver requester device s t
  unfolding accept_friend
  accept_friend-Accepted env approver requester device ref s t h = ground arith

  -- One epoch further.
  pub record Advanced (account : Bytes) (now : ℕ) (s t : State) (epoch : ℕ) : Type 0 where
    pub audiences :
        t.audiences ≡ put s.audiences account (record { epoch = epoch; updated_at = now })
    pub one_more : epoch ≡ (load_audience s account).epoch + 1
    pub edges : t.edges ≡ s.edges
    pub blocks : t.blocks ≡ s.blocks
    pub follows : t.follows ≡ s.follows

  pub advance_epoch-Advanced :
      (account : Bytes) (now : ℕ) (s t : State) (epoch : ℕ)
      → advance_epoch account now s ≡ ok (t, epoch)
      → Advanced account now s t epoch
  unfolding advance_epoch
  advance_epoch-Advanced account now s t epoch h = ground arith

  -- Both epochs of a pair are one further.
  pub record Rotated (a b : Bytes) (s t : State) : Type 0 where
    pub first : (load_audience t a).epoch ≡ (load_audience s a).epoch + 1
    pub second : (load_audience t b).epoch ≡ (load_audience s b).epoch + 1

  pub record Removed (env : Env) (actor peer : Option Bytes) (s t : State) : Type 0 where
    pub a : Bytes
    pub b : Bytes
    pub rec : RelationshipRecord
    pub from : require_address actor "actor" ≡ ok a
    pub to : require_address peer "peer" ≡ ok b
    pub distinct : equal a b ≡ false
    pub found : get s.edges (pair_key a b) ≡ some rec
    pub active_before : is_active rec.status ≡ true
    pub edges : t.edges ≡ put s.edges (pair_key a b) (with_status inactive env.now rec)
    pub blocks : t.blocks ≡ s.blocks
    pub follows : t.follows ≡ s.follows

  pub remove_friend-Removed :
      (env : Env) (actor peer device : Option Bytes) (s t : State)
      → remove_friend env actor peer device s ≡ ok t
      → Removed env actor peer s t
  unfolding remove_friend advance_epoch
  remove_friend-Removed env actor peer device s t h = ground arith

  pub record WasUnblocked (actor target : Option Bytes) (s t : State) : Type 0 where
    pub a : Bytes
    pub b : Bytes
    pub from : require_address actor "actor" ≡ ok a
    pub to : require_address target "target" ≡ ok b
    pub blocks : t.blocks ≡ remove s.blocks (directed_key a b)
    pub edges : t.edges ≡ s.edges
    pub follows : t.follows ≡ s.follows

  pub unblock-WasUnblocked :
      (env : Env) (actor target : Option Bytes) (s t : State)
      → unblock env actor target s ≡ ok t
      → WasUnblocked actor target s t
  unfolding unblock
  unblock-WasUnblocked env actor target s t h = ground arith

  pub record Followed (env : Env) (follower target : Option Bytes) (s t : State) : Type 0 where
    pub a : Bytes
    pub b : Bytes
    pub from : require_address follower "follower" ≡ ok a
    pub to : require_address target "target" ≡ ok b
    pub unblocked : require_not_blocked s a b "target" ≡ ok tt
    pub follows :
        t.follows
        ≡ put s.follows (directed_key a b) (record { active = true; updated_at = env.now })
    pub edges : t.edges ≡ s.edges
    pub blocks : t.blocks ≡ s.blocks

  pub follow-Followed :
      (env : Env) (follower target device : Option Bytes) (s t : State)
      → follow env follower target device s ≡ ok t
      → Followed env follower target s t
  unfolding follow consume
  follow-Followed env follower target device s t h = ground arith

  pub record Unfollowed (follower target : Option Bytes) (s t : State) : Type 0 where
    pub a : Bytes
    pub b : Bytes
    pub from : require_address follower "follower" ≡ ok a
    pub to : require_address target "target" ≡ ok b
    pub follows : t.follows ≡ remove s.follows (directed_key a b)
    pub edges : t.edges ≡ s.edges
    pub blocks : t.blocks ≡ s.blocks

  pub unfollow-Unfollowed :
      (env : Env) (follower target device : Option Bytes) (s t : State)
      → unfollow env follower target device s ≡ ok t
      → Unfollowed follower target s t
  unfolding unfollow
  unfollow-Unfollowed env follower target device s t h = ground arith

  -- `rotate_target` writes only to the audiences.
  pub rotate_target-SameEdges :
      (target : Bytes) (now : ℕ) (active : Bool) (s t : State)
      → rotate_target target now active s ≡ ok t
      → SameEdges s t
  unfolding rotate_target advance_epoch
  rotate_target-SameEdges target now true s t h = ground arith
  rotate_target-SameEdges target now false s t h = ground arith

  pub record WasBlocked (env : Env) (actor target : Option Bytes) (s t : State) : Type 0 where
    pub a : Bytes
    pub b : Bytes
    pub from : require_address actor "actor" ≡ ok a
    pub to : require_address target "target" ≡ ok b
    pub distinct : equal a b ≡ false
    pub edges : t.edges ≡ (end_edge (pair_key a b) env.now (get s.edges (pair_key a b)) s).edges
    pub blocks :
        t.blocks ≡ put s.blocks (directed_key a b) (record { blocked = true; updated_at = env.now })
    pub follows : t.follows ≡ remove (remove s.follows (directed_key a b)) (directed_key b a)

  pub block-WasBlocked :
      (env : Env) (actor target : Option Bytes) (s t : State)
      → block env actor target s ≡ ok t
      → WasBlocked env actor target s t
  unfolding block advance_epoch rotate_target end_edge
  block-WasBlocked env actor target s t h = ground arith
