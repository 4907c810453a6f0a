-- ===== src/Relationships/History.antt =====
-- The calls of the relationships contract as a step relation, and what holds after any history.
use open_social_protocol.Prelude.{
  ℕ, ◌≡◌, ◌≢◌, ◌⊎◌, ◌∙◌, inl, inr, refl, sym, true, false, Option, none, some, arith, length,
}
use open_social_protocol.Chain.{Bytes, Sdk, Env, Usage, ok}
use open_social_protocol.Chain.Util.Require.{require_address-ok}
use open_social_protocol.Relationships.State.{inactive, RelationshipRecord, State, fresh}
use open_social_protocol.Relationships.Checks.{
  pair_key, directed_key, set_token_contract, set_identity_contract, has_blocked,
}
use open_social_protocol.Relationships.Friends.{
  is_pending, is_active, with_status, request_friend, accept_friend, remove_friend,
}
use open_social_protocol.Relationships.Blocks.{
  was_active, end_edge, block, unblock, follow, unfollow, rotate_audience,
}
use open_social_protocol.Relationships.Calls.{
  require_not_blocked-Unblocked, set_token_contract-SameEdges, set_identity_contract-SameEdges,
  rotate_audience-SameEdges, request_friend-Requested, accept_friend-Accepted,
  remove_friend-Removed, block-WasBlocked, unblock-WasUnblocked, follow-Followed,
  unfollow-Unfollowed,
}
use open_social_protocol.Relationships.Separation.{
  Apart, Separated, SameEdges-Separated, edge-Separated, ended-Separated, blocked-Separated,
  unblocked-Separated, unfollowed-Separated, followed-Separated,
}
use open_social_protocol.Relationships.Checks.{identity_contract}
use open_social_protocol.Chain.Actor
use open_social_protocol.Chain.Actor.{require_authorized}

module _ ⦃sdk : Sdk⦄ ⦃usage : Usage⦄ where
  open sdk use {get, put, remove, equal, get-put, get-remove, get-empty, equal_iff}

  -- One successful call of a method that writes.
  pub data Step (env : Env) (s t : State) : Type 0 where
    sets_token : (address : Option Bytes) → set_token_contract env address s ≡ ok t → Step env s t
    sets_identity :
        (address : Option Bytes) → set_identity_contract env address s ≡ ok t → Step env s t
    requests :
        (requester recipient device : Option Bytes)
        → request_friend env requester recipient device s ≡ ok t
        → Step env s t
    accepts :
        (approver requester device ref : Option Bytes)
        → accept_friend env approver requester device ref s ≡ ok t
        → Step env s t
    removes :
        (actor peer device : Option Bytes)
        → remove_friend env actor peer device s ≡ ok t
        → Step env s t
    blocks : (actor target : Option Bytes) → block env actor target s ≡ ok t → Step env s t
    unblocks : (actor target : Option Bytes) → unblock env actor target s ≡ ok t → Step env s t
    follows :
        (follower target device : Option Bytes)
        → follow env follower target device s ≡ ok t
        → Step env s t
    unfollows :
        (follower target device : Option Bytes)
        → unfollow env follower target device s ≡ ok t
        → Step env s t
    rotates :
        (actor device : Option Bytes) → rotate_audience env actor device s ≡ ok t → Step env s t

  -- Any number of calls, each with its own view of the chain.
  pub data Reach (s : State) : State → Type 0 where
    here : Reach s s
    next : {t u : State} (env : Env) → Reach s t → Step env t u → Reach s u

  Step-Separated :
      (env : Env) (s t : State) (a b : Bytes)
      → length a ≡ 25
      → length b ≡ 25
      → Step env s t
      → Separated s a b
      → Separated t a b
  Step-Separated env s t a b la lb (sets_token address e) v =
      SameEdges-Separated s t a b (set_token_contract-SameEdges env address s t e) v
  Step-Separated env s t a b la lb (sets_identity address e) v =
      SameEdges-Separated s t a b (set_identity_contract-SameEdges env address s t e) v
  Step-Separated env s t a b la lb (requests requester recipient device e) v =
      let x = request_friend-Requested env requester recipient device s t e in
      edge-Separated s t x.a x.b a b _ (require_address-ok requester "requester" x.a x.from).1
        (require_address-ok recipient "recipient" x.b x.to).1 la lb
        (require_not_blocked-Unblocked s x.a x.b "recipient" x.unblocked) x.edges x.blocks x.follows
        v
  Step-Separated env s t a b la lb (accepts approver requester device ref e) v =
      let x = accept_friend-Accepted env approver requester device ref s t e in
      edge-Separated s t x.a x.b a b _ (require_address-ok approver "approver" x.a x.from).1
        (require_address-ok requester "requester" x.b x.to).1 la lb
        (require_not_blocked-Unblocked s x.a x.b "requester" x.unblocked) x.edges x.blocks x.follows
        v
  Step-Separated env s t a b la lb (removes actor peer device e) v =
      let x = remove_friend-Removed env actor peer device s t e in
      ended-Separated s t (pair_key x.a x.b) a b _ refl x.edges x.blocks x.follows v
  Step-Separated env s t a b la lb (blocks actor target e) v =
      let x = block-WasBlocked env actor target s t e in
      blocked-Separated s t x.a x.b a b env.now _ (require_address-ok actor "actor" x.a x.from).1
        (require_address-ok target "target" x.b x.to).1 la lb x.edges x.blocks x.follows v
  Step-Separated env s t a b la lb (unblocks actor target e) v =
      let x = unblock-WasUnblocked env actor target s t e in
      unblocked-Separated s t (directed_key x.a x.b) a b x.edges x.blocks x.follows v
  Step-Separated env s t a b la lb (follows follower target device e) v =
      let x = follow-Followed env follower target device s t e in
      followed-Separated s t x.a x.b a b _ (require_address-ok follower "follower" x.a x.from).1
        (require_address-ok target "target" x.b x.to).1 la lb
        (require_not_blocked-Unblocked s x.a x.b "target" x.unblocked) x.edges x.blocks x.follows v
  Step-Separated env s t a b la lb (unfollows follower target device e) v =
      let x = unfollow-Unfollowed env follower target device s t e in
      unfollowed-Separated s t (directed_key x.a x.b) a b x.edges x.blocks x.follows v
  Step-Separated env s t a b la lb (rotates actor device e) v =
      SameEdges-Separated s t a b (rotate_audience-SameEdges env actor device s t e) v

  Reach-Separated :
      (ledger : usage.Ledger) {s : State} (a b : Bytes)
      → length a ≡ 25
      → length b ≡ 25
      → Reach (fresh ledger) s
      → Separated s a b
  unfolding has_blocked
  Reach-Separated ledger a b la lb here = inl (rw (get-empty (directed_key a b)) refl)
  Reach-Separated ledger a b la lb (next {t = s} {u = t} env r st) =
      Step-Separated env s t a b la lb st (Reach-Separated ledger a b la lb r)

  -- After any history of calls on a new contract, while one of two accounts blocks the other there is
  -- no friendship between them, requested or accepted, and neither follows the other.
  pub block_keeps-Apart :
      (s : State) (ledger : usage.Ledger) (a b : Bytes)
      → length a ≡ 25
      → length b ≡ 25
      → Reach (fresh ledger) s
      → has_blocked s a b ≡ true
      → Apart s a b
  block_keeps-Apart s ledger a b la lb r h = elim (Reach-Separated ledger a b la lb r) [
    | inl free ↦ absurd (true_is_not-false (sym h ∙ free))
    | inr w ↦ w
  ]
    where
      true_is_not-false : true ≢ false
      true_is_not-false e = ground arith

  -- A friendship that a call makes active was requested by one of the two before, and it is the other
  -- one whose authority the call has.
  pub record Consented (env : Env) (s : State) (k : Bytes) : Type 0 where
    pub approver : Bytes
    pub requester : Bytes
    pub device : Option Bytes
    pub signer : Bytes
    pub rec : RelationshipRecord
    pub key : k ≡ pair_key approver requester
    pub distinct : equal approver requester ≡ false
    pub found : get s.edges k ≡ some rec
    pub pending_before : is_pending rec.status ≡ true
    pub asked : rec.requester ≡ requester
    pub signed :
        require_authorized env (identity_contract s) approver device Actor.relationships ≡ ok signer

  false_is_not-true : false ≢ true
  false_is_not-true e = ground arith

  put_self :
      (m : sdk.Map RelationshipRecord) (j k : Bytes) (rec : RelationshipRecord)
      → was_active (get (put m j rec) k) ≡ true
      → (was_active (get m k) ≡ true) ⊎ ((j ≡ k) × (is_active rec.status ≡ true))
  put_self m j k rec h = ground (arith, get-put m j rec k, equal_iff j k)

  end_edge-was_active :
      (s : State) (j k : Bytes) (now : ℕ) (old : Option RelationshipRecord)
      → was_active (get (end_edge j now old s).edges k) ≡ true
      → was_active (get s.edges k) ≡ true
  unfolding end_edge
  end_edge-was_active s j k now none h = h
  end_edge-was_active s j k now (some rec) h =
      ground (arith, get-put s.edges j (with_status inactive now rec) k)

  -- If a friendship is active after a call, then it was active before, or one of the two had requested
  -- it and the call is signed for the other, who is not the requester.
  pub Step-Consented :
      (env : Env) (s t : State) (k : Bytes)
      → Step env s t
      → was_active (get t.edges k) ≡ true
      → (was_active (get s.edges k) ≡ true) ⊎ Consented env s k
  Step-Consented env s t k (sets_token address e) h =
      inl (rw ((set_token_contract-SameEdges env address s t e).edges) at h)
  Step-Consented env s t k (sets_identity address e) h =
      inl (rw ((set_identity_contract-SameEdges env address s t e).edges) at h)
  Step-Consented env s t k (requests requester recipient device e) h =
      let x = request_friend-Requested env requester recipient device s t e in
      elim (put_self s.edges (pair_key x.a x.b) k _ (rw x.edges at h)) [
        | inl before ↦ inl before
        | inr (_, wrong) ↦ absurd (false_is_not-true wrong)
      ]
  Step-Consented env s t k (accepts approver requester device ref e) h =
      let x = accept_friend-Accepted env approver requester device ref s t e in
      elim (put_self s.edges (pair_key x.a x.b) k _ (rw x.edges at h)) [
        | inl before ↦ inl before
        | inr (same, _) ↦ inr (record {
          approver = x.a;
          requester = x.b;
          device = device;
          signer = x.signer;
          rec = x.rec;
          key = sym same;
          distinct = x.distinct;
          found = rw (← same) x.found;
          pending_before = x.pending_before;
          asked = (equal_iff x.rec.requester x.b).0 x.by_other;
          signed = x.signed;
        })
      ]
  Step-Consented env s t k (removes actor peer device e) h =
      let x = remove_friend-Removed env actor peer device s t e in
      elim (put_self s.edges (pair_key x.a x.b) k _ (rw x.edges at h)) [
        | inl before ↦ inl before
        | inr (_, wrong) ↦ absurd (false_is_not-true wrong)
      ]
  Step-Consented env s t k (blocks actor target e) h =
      let x = block-WasBlocked env actor target s t e in
      inl (
        end_edge-was_active s (pair_key x.a x.b) k env.now (get s.edges (pair_key x.a x.b))
          (rw x.edges at h))
  Step-Consented env s t k (unblocks actor target e) h =
      inl (rw ((unblock-WasUnblocked env actor target s t e).edges) at h)
  Step-Consented env s t k (follows follower target device e) h =
      inl (rw ((follow-Followed env follower target device s t e).edges) at h)
  Step-Consented env s t k (unfollows follower target device e) h =
      inl (rw ((unfollow-Unfollowed env follower target device s t e).edges) at h)
  Step-Consented env s t k (rotates actor device e) h =
      inl (rw ((rotate_audience-SameEdges env actor device s t e).edges) at h)
