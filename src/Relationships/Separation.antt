-- ===== src/Relationships/Separation.antt =====
-- A block keeps two accounts apart, over any history of calls.
use open_social_protocol.Prelude.{
  ℕ, ◌≡◌, ◌⊎◌, ◌∙◌, inl, inr, refl, sym, Bool, false, Option, none, some, ◌||◌, arith, length,
  Bool-cases,
}
use open_social_protocol.Chain.{Bytes, Sdk, Usage}
use open_social_protocol.Chain.Util.Compare.{eq_of_compare}
use open_social_protocol.Chain.Util.Concat.{concat_pair_injective}
use open_social_protocol.Messaging.Checks.{pair}
use open_social_protocol.Messaging.Pairs.{pair_injective}
use open_social_protocol.Relationships.State.{
  inactive, RelationshipRecord, BlockRecord, FollowRecord, State,
}
use open_social_protocol.Relationships.Checks.{
  pair_key, directed_key, is_follow, has_blocked, is_following,
}
use open_social_protocol.Relationships.Friends.{is_pending, is_active, with_status}
use open_social_protocol.Relationships.Blocks.{end_edge}
use open_social_protocol.Relationships.Calls.{SameEdges, Unblocked}

-- A friendship that is requested or accepted.
abbrev pub is_live : Option RelationshipRecord → Bool
is_live none = false
is_live (some rec) = is_pending rec.status || is_active rec.status

pair_key-eq-pair : (a b : Bytes) → pair_key a b ≡ pair a b
unfolding pair_key pair
pair_key-eq-pair a b = ground (arith, eq_of_compare a b)

-- Friendships of different pairs of addresses are stored under different keys, whichever side is
-- named first.
pair_key_injective :
    (a b c d : Bytes)
    → length a ≡ 25
    → length b ≡ 25
    → length c ≡ 25
    → length d ≡ 25
    → pair_key a b ≡ pair_key c d
    → ((a ≡ c) × (b ≡ d)) ⊎ ((a ≡ d) × (b ≡ c))
pair_key_injective a b c d la lb lc ld h =
    pair_injective a b c d (la ∙ sym lc) (lb ∙ sym lc) (ld ∙ sym lc)
      (sym (pair_key-eq-pair a b) ∙ h ∙ pair_key-eq-pair c d)

module _ ⦃sdk : Sdk⦄ ⦃usage : Usage⦄ where
  open sdk use {get, put, remove, equal, get-put, get-remove, get-empty, equal_iff}

  -- No friendship, requested or accepted, and no follow either way.
  pub record Apart (s : State) (a b : Bytes) : Type 0 where
    pub edge : is_live (get s.edges (pair_key a b)) ≡ false
    pub forth : is_following s a b ≡ false
    pub back : is_following s b a ≡ false

  abbrev pub Separated : State → Bytes → Bytes → Type 0
  Separated s a b = (has_blocked s a b ≡ false) ⊎ Apart s a b

  end_edge-is_live :
      (s : State) (k j : Bytes) (now : ℕ) (old : Option RelationshipRecord)
      → get s.edges k ≡ old
      → is_live (get s.edges j) ≡ false
      → is_live (get (end_edge k now old s).edges j) ≡ false
  unfolding end_edge
  end_edge-is_live s k j now none e h = h
  end_edge-is_live s k j now (some rec) e h =
      ground (arith, get-put s.edges k (with_status inactive now rec) j)

  end_edge-is_live_self :
      (s : State) (k : Bytes) (now : ℕ) (old : Option RelationshipRecord)
      → get s.edges k ≡ old
      → is_live (get (end_edge k now old s).edges k) ≡ false
  unfolding end_edge
  end_edge-is_live_self s k now none e = rw e refl
  end_edge-is_live_self s k now (some rec) e =
      ground (arith, get-put s.edges k (with_status inactive now rec) k, equal_iff k k)

  -- The maps decide.
  pub SameEdges-Separated :
      (s t : State) (a b : Bytes) → SameEdges s t → Separated s a b → Separated t a b
  unfolding has_blocked is_following
  SameEdges-Separated s t a b e v = ground arith

  -- A write to the edge of two accounts that have not blocked each other.
  pub edge-Separated :
      (s t : State) (x y a b : Bytes) (rec : RelationshipRecord)
      → length x ≡ 25
      → length y ≡ 25
      → length a ≡ 25
      → length b ≡ 25
      → Unblocked s x y
      → t.edges ≡ put s.edges (pair_key x y) rec
      → t.blocks ≡ s.blocks
      → t.follows ≡ s.follows
      → Separated s a b
      → Separated t a b
  unfolding has_blocked is_following
  edge-Separated s t x y a b rec lx ly la lb u e f g v =
      elim (Bool-cases (equal (pair_key x y) (pair_key a b))) [
        | inl same ↦
            let k = (equal_iff (pair_key x y) (pair_key a b)).0 same in
            inl (
              rw f (elim (pair_key_injective x y a b lx ly la lb k) [
                | inl (p, q) ↦ rw (← p, ← q) u.by_first
                | inr (p, q) ↦ rw (← p, ← q) u.by_second
              ]))
        | inr other ↦ elim v [
          | inl free ↦ inl (rw f free)
          | inr w ↦ inr (record {
            edge = rw (e, get-put, other) w.edge;
            forth = rw g w.forth;
            back = rw g w.back;
          })
        ]
      ]

  -- A write that ends an edge.
  pub ended-Separated :
      (s t : State) (k a b : Bytes) (rec : RelationshipRecord)
      → is_live (some rec) ≡ false
      → t.edges ≡ put s.edges k rec
      → t.blocks ≡ s.blocks
      → t.follows ≡ s.follows
      → Separated s a b
      → Separated t a b
  unfolding has_blocked is_following
  ended-Separated s t k a b rec l e f g v = elim v [
    | inl free ↦ inl (rw f free)
    | inr w ↦ inr (record {
      edge = ground (arith, get-put s.edges k rec (pair_key a b), w.edge);
      forth = rw g w.forth;
      back = rw g w.back;
    })
  ]

  -- Fewer follows.
  is_follow-remove :
      (m : sdk.Map FollowRecord) (k j : Bytes)
      → is_follow (get m j) ≡ false
      → is_follow (get (remove m k) j) ≡ false
  is_follow-remove m k j h = ground (arith, get-remove m k j)

  is_follow-remove_self :
      (m : sdk.Map FollowRecord) (k : Bytes) → is_follow (get (remove m k) k) ≡ false
  is_follow-remove_self m k = ground (arith, get-remove m k k, equal_iff k k)

  pub blocked-Separated :
      (s t : State) (x y a b : Bytes) (now : ℕ) (rec : BlockRecord)
      → length x ≡ 25
      → length y ≡ 25
      → length a ≡ 25
      → length b ≡ 25
      → t.edges ≡ (end_edge (pair_key x y) now (get s.edges (pair_key x y)) s).edges
      → t.blocks ≡ put s.blocks (directed_key x y) rec
      → t.follows ≡ remove (remove s.follows (directed_key x y)) (directed_key y x)
      → Separated s a b
      → Separated t a b
  unfolding has_blocked is_following
  blocked-Separated s t x y a b now rec lx ly la lb e f g v =
      elim (Bool-cases (equal (directed_key x y) (directed_key a b))) [
        | inl same ↦
            let (p, q) =
              concat_pair_injective x a y b (lx ∙ sym la)
                ((equal_iff (directed_key x y) (directed_key a b)).0 same) in
            inr (
              rw (← p, ← q)
                (record {
                  edge = rw e (
                      end_edge-is_live_self s (pair_key x y) now (get s.edges (pair_key x y)) refl);
                  forth = rw g (
                      is_follow-remove (remove s.follows (directed_key x y)) (directed_key y x)
                        (directed_key x y) (is_follow-remove_self s.follows (directed_key x y)));
                  back = rw g (
                      is_follow-remove_self (remove s.follows (directed_key x y))
                        (directed_key y x));
                }))
        | inr other ↦ elim v [
          | inl free ↦ inl (rw (f, get-put, other) free)
          | inr w ↦ inr (record {
            edge = rw e (
                end_edge-is_live s (pair_key x y) (pair_key a b) now (get s.edges (pair_key x y))
                  refl w.edge);
            forth = rw g (
                is_follow-remove (remove s.follows (directed_key x y)) (directed_key y x)
                  (directed_key a b)
                  (is_follow-remove s.follows (directed_key x y) (directed_key a b) w.forth));
            back = rw g (
                is_follow-remove (remove s.follows (directed_key x y)) (directed_key y x)
                  (directed_key b a)
                  (is_follow-remove s.follows (directed_key x y) (directed_key b a) w.back));
          })
        ]
      ]

  pub unblocked-Separated :
      (s t : State) (k a b : Bytes)
      → t.edges ≡ s.edges
      → t.blocks ≡ remove s.blocks k
      → t.follows ≡ s.follows
      → Separated s a b
      → Separated t a b
  unfolding has_blocked is_following
  unblocked-Separated s t k a b e f g v = ground (arith, get-remove s.blocks k (directed_key a b))

  pub unfollowed-Separated :
      (s t : State) (k a b : Bytes)
      → t.edges ≡ s.edges
      → t.blocks ≡ s.blocks
      → t.follows ≡ remove s.follows k
      → Separated s a b
      → Separated t a b
  unfolding has_blocked is_following
  unfollowed-Separated s t k a b e f g v = ground (
    arith,
    is_follow-remove s.follows k (directed_key a b),
    is_follow-remove s.follows k (directed_key b a),
  )

  -- A follow between two accounts that have not blocked each other.
  pub followed-Separated :
      (s t : State) (x y a b : Bytes) (rec : FollowRecord)
      → length x ≡ 25
      → length y ≡ 25
      → length a ≡ 25
      → length b ≡ 25
      → Unblocked s x y
      → t.edges ≡ s.edges
      → t.blocks ≡ s.blocks
      → t.follows ≡ put s.follows (directed_key x y) rec
      → Separated s a b
      → Separated t a b
  unfolding has_blocked is_following
  followed-Separated s t x y a b rec lx ly la lb u e f g v =
      elim (Bool-cases (equal (directed_key x y) (directed_key a b))) [
        | inl same ↦
            let (p, q) =
              concat_pair_injective x a y b (lx ∙ sym la)
                ((equal_iff (directed_key x y) (directed_key a b)).0 same) in
            inl (rw (f, ← p, ← q) u.by_first)
        | inr other ↦ elim (Bool-cases (equal (directed_key x y) (directed_key b a))) [
          | inl same ↦
              let (p, q) =
                concat_pair_injective x b y a (lx ∙ sym lb)
                  ((equal_iff (directed_key x y) (directed_key b a)).0 same) in
              inl (rw (f, ← p, ← q) u.by_second)
          | inr apart ↦ elim v [
            | inl free ↦ inl (rw f free)
            | inr w ↦ inr (record {
              edge = rw e w.edge;
              forth = rw (g, get-put, other) w.forth;
              back = rw (g, get-put, apart) w.back;
            })
          ]
        ]
      ]
