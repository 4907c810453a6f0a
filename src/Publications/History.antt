-- ===== src/Publications/History.antt =====
-- What a post and an idempotency key keep over any history of calls.
use open_social_protocol.Prelude.{
  ℕ, ◌≡◌, ◌⊎◌, ◌∙◌, inl, inr, refl, sym, false, Option, none, some, ◌==◌, arith, length,
}
use open_social_protocol.Chain.{Bytes, Sdk, Env, Usage}
use open_social_protocol.Chain.Util.Concat.{concat_pair_injective}
use open_social_protocol.Chain.Lookup.{put_at, some_injective}
use open_social_protocol.Publications.State.{deleted, PostRecord, State, fresh}
use open_social_protocol.Publications.Checks.{idempotency_key}
use open_social_protocol.Publications.Calls.{bind_key, is_bound}
use open_social_protocol.Publications.Effects.{
  Reach, here, next, SamePost, SamePost-refl, Effect, unchanged, created, changed, Step-Effect,
}

module _ ⦃sdk : Sdk⦄ ⦃usage : Usage⦄ where
  open sdk use {get, put, equal, get-put, get-empty, equal_iff}

  -- A record that follows another one of the same post: it stays as it was once it is deleted.
  pub record Follows (old rec : PostRecord) : Type 0 where
    pub same_post : SamePost old rec
    pub final : ((old.state == deleted) ≡ false) ⊎ (rec ≡ old)

  Follows-refl : (rec : PostRecord) → Follows rec rec
  Follows-refl rec = record { same_post = SamePost-refl rec; final = inr refl }

  Follows-trans : (p q r : PostRecord) → Follows p q → Follows q r → Follows p r
  Follows-trans p q r f g = record {
    same_post = record {
      author = g.same_post.author ∙ f.same_post.author;
      sequence = g.same_post.sequence ∙ f.same_post.sequence;
      reply_to = g.same_post.reply_to ∙ f.same_post.reply_to;
      audience = g.same_post.audience ∙ f.same_post.audience;
      created_at = g.same_post.created_at ∙ f.same_post.created_at;
    };
    final = elim f.final [
      | inl live ↦ inl live
      | inr same ↦ elim g.final [
        | inl live ↦ inl (rw same at live)
        | inr again ↦ inr (again ∙ same)
      ]
    ];
  }

  pub Effect-Follows :
      (env : Env) (s t : State) (k : Bytes) (old : PostRecord)
      → Effect env s t
      → get s.posts k ≡ some old
      → (rec : PostRecord) × (get t.posts k ≡ some rec) × Follows old rec
  Effect-Follows env s t k old (unchanged x) h = (old, rw x.posts h, Follows-refl old)
  Effect-Follows env s t k old (created x) h = elim (put_at s.posts x.id k x.rec) [
    | inl (same, _) ↦ ground (arith, x.new)
    | inr (_, other) ↦ (old, rw x.posts (other ∙ h), Follows-refl old)
  ]
  Effect-Follows env s t k old (changed x) h = elim (put_at s.posts x.id k x.rec) [
    | inl (same, now) ↦ (
      x.rec,
      rw x.posts now,
      record {
        same_post = rw (← some_injective (sym (rw same at x.found) ∙ h)) x.kept;
        final = inl (rw (← some_injective (sym (rw same at x.found) ∙ h)) x.live);
      },
    )
    | inr (_, other) ↦ (old, rw x.posts (other ∙ h), Follows-refl old)
  ]

  -- Over any number of calls a post stays: its author, its sequence number, what it replies to, its
  -- audience and its time of creation never change, and once it is deleted its whole record stays as it
  -- is.
  pub post_keeps_identity :
      {s : State} {n : ℕ} {t : State} (k : Bytes) (old : PostRecord)
      → Reach s n t
      → get s.posts k ≡ some old
      → (rec : PostRecord) × (get t.posts k ≡ some rec) × Follows old rec
  post_keeps_identity k old here h = (old, h, Follows-refl old)
  post_keeps_identity k old (next {t = t} {u = u} env r st) h =
      let (mid, found, f) = post_keeps_identity k old r h in
      let (rec, last, g) = Effect-Follows env t u k mid (Step-Effect env t u st) found in
      (rec, last, Follows-trans old mid rec f g)

  -- A key that is bound stays bound to its post, and only free keys get bound.
  bind_key_keeps :
      (author : Bytes) (key : Option Bytes) (id : Bytes) (m : sdk.Map Bytes) (k v : Bytes)
      → is_bound author key m ≡ false
      → get m k ≡ some v
      → get (bind_key author key id m) k ≡ some v
  bind_key_keeps author none id m k v free h = h
  bind_key_keeps author (some key) id m k v free h =
      elim (put_at m (idempotency_key author key) k id) [
        | inl (same, _) ↦ ground (arith, free)
        | inr (_, other) ↦ other ∙ h
      ]

  -- Over any number of calls an idempotency key that is bound to a post stays bound to that post.
  pub bound_key_is_final :
      {s : State} {n : ℕ} {t : State} (k id : Bytes)
      → Reach s n t
      → get s.idempotency k ≡ some id
      → get t.idempotency k ≡ some id
  bound_key_is_final k id here h = h
  bound_key_is_final k id (next {t = t} {u = u} env r st) h = elim (Step-Effect env t u st) [
    | unchanged x ↦ rw x.idempotency (bound_key_is_final k id r h)
    | created x ↦
        rw x.idempotency (
          bind_key_keeps x.author x.key x.id t.idempotency k id x.free
            (bound_key_is_final k id r h))
    | changed x ↦
        rw x.idempotency (
          bind_key_keeps x.author x.key x.id t.idempotency k id x.free
            (bound_key_is_final k id r h))
  ]

  -- Where a key of an author is bound after a call: where it was before, or to the post of the call.
  bind_key_origin :
      (author : Bytes) (key : Option Bytes) (id : Bytes) (m : sdk.Map Bytes) (a k v : Bytes)
      → length author ≡ 25
      → length a ≡ 25
      → get (bind_key author key id m) (idempotency_key a k) ≡ some v
      → (get m (idempotency_key a k) ≡ some v) ⊎ ((author ≡ a) × (id ≡ v))
  bind_key_origin author none id m a k v la lb h = inl h
  bind_key_origin author (some key) id m a k v la lb h =
      elim (put_at m (idempotency_key author key) (idempotency_key a k) id) [
        | inl (same, now) ↦ inr (
          (concat_pair_injective author a key k (la ∙ sym lb) same).0,
          some_injective (sym now ∙ h),
        )
        | inr (_, other) ↦ inl (sym other ∙ h)
      ]

  -- After any history of calls on a new contract, a key that an author has bound leads to a post that
  -- exists and is the author's own.
  pub bound_key_is_own_post :
      (ledger : usage.Ledger) {n : ℕ} {s : State} (author key id : Bytes)
      → length author ≡ 25
      → Reach (fresh ledger) n s
      → get s.idempotency (idempotency_key author key) ≡ some id
      → (rec : PostRecord) × (get s.posts id ≡ some rec) × (rec.author ≡ author)
  bound_key_is_own_post ledger author key id l here h =
      ground (arith, get-empty {V = Bytes} (idempotency_key author key))
  bound_key_is_own_post ledger author key id l (next {t = t} {u = u} env r st) h =
      elim (Step-Effect env t u st) [
        | unchanged x ↦
            let (rec, found, own) =
              bound_key_is_own_post ledger author key id l r (rw x.idempotency at h) in
            (rec, rw x.posts found, own)
        | created x ↦
            elim (bind_key_origin x.author x.key x.id t.idempotency author key id x.address l
              (rw x.idempotency at h)) [
                | inl before ↦
                    let (rec, found, own) = bound_key_is_own_post ledger author key id l r before in
                    let (rec', found', f) = Effect-Follows env t u id rec (created x) found in
                    (rec', found', f.same_post.author ∙ own)
                | inr (same, this) ↦ (
                  x.rec,
                  ground (arith, x.posts, this, get-put t.posts x.id x.rec id, equal_iff x.id id),
                  x.author_is ∙ same,
                )
              ]
        | changed x ↦
            elim (bind_key_origin x.author x.key x.id t.idempotency author key id x.address l
              (rw x.idempotency at h)) [
                | inl before ↦
                    let (rec, found, own) = bound_key_is_own_post ledger author key id l r before in
                    let (rec', found', f) = Effect-Follows env t u id rec (changed x) found in
                    (rec', found', f.same_post.author ∙ own)
                | inr (same, this) ↦ (
                  x.rec,
                  ground (arith, x.posts, this, get-put t.posts x.id x.rec id, equal_iff x.id id),
                  x.kept.author ∙ x.owner ∙ same,
                )
              ]
      ]
