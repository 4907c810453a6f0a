-- ===== src/Publications/Sequence.antt =====
-- The sequence numbers of an author's posts.
use open_social_protocol.Prelude.{
  ℕ, ◌+◌, ◌≤◌, ◌<◌, ◌≡◌, ◌≢◌, ◌⊎◌, ◌∙◌, inl, inr, refl, sym, ap, none, some, arith,
}
use open_social_protocol.Chain.{Bytes, Sdk, Env, Usage, u64_mod, add64}
use open_social_protocol.Publications.State.{PostRecord, AuthorState, State, fresh}
use open_social_protocol.Publications.Checks.{author_or_new, load_author}
use open_social_protocol.Publications.Publish.{next_author}
use open_social_protocol.Publications.Effects.{
  Reach, here, next, Created, Changed, unchanged, created, changed, Step-Effect,
}
use open_social_protocol.Chain.Lookup.{put_at, some_injective}

module _ ⦃sdk : Sdk⦄ ⦃usage : Usage⦄ where
  open sdk use {get, put, equal, get-put, get-empty, equal_iff}

  -- The state of an author after a new post: moved on for the author of it.
  pub load_author_after :
      (env : Env) (s t : State) (x : Created env s t) (a : Bytes)
      → ((x.author ≡ a) × (load_author t a ≡ next_author env.now (load_author s a)))
        ⊎ (load_author t a ≡ load_author s a)
  unfolding load_author
  load_author_after env s t x a =
      elim (put_at s.authors x.author a (next_author env.now (load_author s x.author))) [
        | inl (same, now) ↦ inl (same, rw (x.authors, now, same) refl)
        | inr (_, other) ↦ inr (rw (x.authors, other) refl)
      ]

  pub load_author_own :
      (env : Env) (s t : State) (x : Created env s t)
      → load_author t x.author ≡ next_author env.now (load_author s x.author)
  unfolding load_author
  load_author_own env s t x = ground (
    arith,
    x.authors,
    get-put s.authors x.author (next_author env.now (load_author s x.author)) x.author,
    equal_iff x.author x.author,
  )

  pub load_author_same :
      (s t : State) (a : Bytes) → t.authors ≡ s.authors → load_author t a ≡ load_author s a
  unfolding load_author
  load_author_same s t a h = rw h refl

  pub fresh-load_author :
      (ledger : usage.Ledger) (a : Bytes) → load_author (fresh ledger) a ≡ author_or_new none
  unfolding load_author
  fresh-load_author ledger a = rw (get-empty {V = AuthorState} a) refl

  -- The two counters of an author move together, and by at most one for each call.
  pub author_counters :
      (ledger : usage.Ledger) (a : Bytes) {n : ℕ} {s : State}
      → Reach (fresh ledger) n s
      → ((load_author s a).next_sequence ≡ add64 (load_author s a).post_count 1)
        × ((load_author s a).next_sequence ≤ n + 1)
  author_counters ledger a here = rw (fresh-load_author ledger a) (omega arith, omega arith)
  author_counters ledger a (next {t = t} {u = u} env r st) =
      let (counts, bound) = author_counters ledger a r in
      elim (Step-Effect env t u st) [
        | unchanged x ↦ rw (load_author_same t u a x.authors) (counts, omega arith)
        | changed x ↦ rw (load_author_same t u a x.authors) (counts, omega arith)
        | created x ↦ elim (load_author_after env t u x a) [
          | inl (_, e) ↦ rw e (omega arith, omega arith)
          | inr e ↦ rw e (counts, omega arith)
        ]
      ]

  -- A post after an edit has the author and the number of one before.
  pub Changed-origin :
      (s t : State) (x : Changed s t) (k : Bytes) (rec : PostRecord)
      → get t.posts k ≡ some rec
      → (old : PostRecord) × (get s.posts k ≡ some old)
        × (rec.author ≡ old.author)
        × (rec.sequence ≡ old.sequence)
  Changed-origin s t x k rec h = elim (put_at s.posts x.id k x.rec) [
    | inl (same, now) ↦
        let e : rec ≡ x.rec = some_injective (sym h ∙ (rw x.posts now)) in
        (x.old, rw same at x.found, rw e (x.kept.author), rw e (x.kept.sequence))
    | inr (_, other) ↦ (rec, sym other ∙ (rw x.posts at h), refl, refl)
  ]

  -- A post after a first version is an old one, or the new one.
  pub Created-origin :
      (env : Env) (s t : State) (x : Created env s t) (k : Bytes) (rec : PostRecord)
      → get t.posts k ≡ some rec
      → (get s.posts k ≡ some rec) ⊎ ((x.id ≡ k) × (rec ≡ x.rec))
  Created-origin env s t x k rec h = elim (put_at s.posts x.id k x.rec) [
    | inl (same, now) ↦ inr (same, some_injective (sym h ∙ (rw x.posts now)))
    | inr (_, other) ↦ inl (sym other ∙ (rw x.posts at h))
  ]

  -- While there is a next number, a post's is below it.
  pub sequence_below_next :
      (ledger : usage.Ledger) (k : Bytes) (rec : PostRecord) {n : ℕ} {s : State}
      → Reach (fresh ledger) n s
      → n + 1 < u64_mod
      → get s.posts k ≡ some rec
      → rec.sequence < (load_author s rec.author).next_sequence
  sequence_below_next ledger k rec here b h = ground (arith, get-empty {V = PostRecord} k)
  sequence_below_next ledger k rec (next {n = n} {t = t} {u = u} env r st) b h =
      elim (Step-Effect env t u st) [
        | unchanged x ↦
            rw (load_author_same t u rec.author x.authors)
              (sequence_below_next ledger k rec r (omega arith) (rw x.posts at h))
        | changed x ↦
            let (old, found, same_author, same_sequence) = Changed-origin t u x k rec h in
            rw (load_author_same t u rec.author x.authors, same_author, same_sequence)
              (sequence_below_next ledger k old r (omega arith) found)
        | created x ↦ elim (Created-origin env t u x k rec h) [
          | inl before ↦
              let below = sequence_below_next ledger k rec r (omega arith) before in
              let (_, bound) = author_counters ledger rec.author r in
              elim (load_author_after env t u x rec.author) [
                | inl (_, e) ↦ rw e (omega arith)
                | inr e ↦ rw e below
              ]
          | inr (_, this) ↦
              let (_, bound) = author_counters ledger x.author r in
              rw (this, x.author_is, load_author_own env t u x, x.sequence_is) (omega arith)
        ]
      ]

  -- A post before the call has not the number of the post that the call adds.
  number_is_new :
      (ledger : usage.Ledger) (env : Env) (k : Bytes) (p : PostRecord) {n : ℕ} {s t : State}
      → Reach (fresh ledger) n s
      → n + 1 < u64_mod
      → (x : Created env s t) → get s.posts k ≡ some p
      → p.author ≡ x.rec.author
      → p.sequence ≢ x.rec.sequence
  number_is_new ledger env k p r b x h own same =
      let below = sequence_below_next ledger k p r b h in
      let below' = rw (own ∙ x.author_is, same ∙ x.sequence_is) at below in omega arith

  -- On a new contract, after any history of fewer calls than there are sequence numbers, two posts of
  -- one author with one sequence number are the same post.
  pub sequence_identifies_post :
      (ledger : usage.Ledger) (j k : Bytes) (p q : PostRecord) {n : ℕ} {s : State}
      → Reach (fresh ledger) n s
      → n + 1 < u64_mod
      → get s.posts j ≡ some p
      → get s.posts k ≡ some q
      → p.author ≡ q.author
      → p.sequence ≡ q.sequence
      → j ≡ k
  sequence_identifies_post ledger j k p q here b hp hq own same =
      ground (arith, get-empty {V = PostRecord} j)
  sequence_identifies_post ledger j k p q (next {n = n} {t = t} {u = u} env r st) b hp hq own same =
      elim (Step-Effect env t u st) [
        | unchanged x ↦
            sequence_identifies_post ledger j k p q r (omega arith) (rw x.posts at hp)
              (rw x.posts at hq) own same
        | changed x ↦
            let (p', foundp, pa, ps) = Changed-origin t u x j p hp in
            let (q', foundq, qa, qs) = Changed-origin t u x k q hq in
            sequence_identifies_post ledger j k p' q' r (omega arith) foundp foundq
              (sym pa ∙ own ∙ qa) (sym ps ∙ same ∙ qs)
        | created x ↦ elim (Created-origin env t u x j p hp) [
          | inl oldp ↦ elim (Created-origin env t u x k q hq) [
            | inl oldq ↦ sequence_identifies_post ledger j k p q r (omega arith) oldp oldq own same
            | inr (_, newq) ↦ absurd (
                number_is_new ledger env j p r (omega arith) x oldp
                  (own ∙ ap (λ (z : PostRecord). z.author) newq)
                  (same ∙ ap (λ (z : PostRecord). z.sequence) newq))
          ]
          | inr (idp, newp) ↦ elim (Created-origin env t u x k q hq) [
            | inl oldq ↦ absurd (
                number_is_new ledger env k q r (omega arith) x oldq
                  (sym own ∙ ap (λ (z : PostRecord). z.author) newp)
                  (sym same ∙ ap (λ (z : PostRecord). z.sequence) newp))
            | inr (idq, _) ↦ sym idp ∙ idq
          ]
        ]
      ]
