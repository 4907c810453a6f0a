-- ===== src/Publications/Numbers.antt =====
-- The sequence numbers below the next one are those of the author's posts, without a gap.
use open_social_protocol.Prelude.{ℕ, ◌+◌, ◌≤◌, ◌<◌, ◌≡◌, ◌⊎◌, ◌↔◌, ◌∙◌, inl, inr, ap, some, arith}
use open_social_protocol.Chain.{Bytes, Sdk, Usage, Env, u64_mod}
use open_social_protocol.Publications.State.{PostRecord, AuthorState, State, fresh}
use open_social_protocol.Publications.Checks.{load_author}
use open_social_protocol.Publications.Effects.{
  Reach, here, next, Created, Effect, unchanged, created, changed, Step-Effect,
}
use open_social_protocol.Publications.History.{Effect-Follows}
use open_social_protocol.Publications.Sequence.{
  load_author_after, load_author_same, fresh-load_author, author_counters, Changed-origin,
  Created-origin, sequence_below_next,
}

below_or_last : (k m : ℕ) → k < m + 1 → (k < m) ⊎ (k ≡ m)
below_or_last k m h = ground arith

module _ ⦃sdk : Sdk⦄ ⦃usage : Usage⦄ where
  open sdk use {get, put, equal, get-put, get-empty, equal_iff}

  -- A stored post of the author with the number.
  pub record HasPost (s : State) (a : Bytes) (k : ℕ) : Type 0 where
    pub id : Bytes
    pub rec : PostRecord
    pub found : get s.posts id ≡ some rec
    pub by : rec.author ≡ a
    pub number : rec.sequence ≡ k

  Effect-HasPost :
      (env : Env) (s t : State) (a : Bytes) (k : ℕ) → Effect env s t → HasPost s a k → HasPost t a k
  Effect-HasPost env s t a k x p =
      let (rec', found, f) = Effect-Follows env s t p.id p.rec x p.found in
      record {
        id = p.id;
        rec = rec';
        found = found;
        by = f.same_post.author ∙ p.by;
        number = f.same_post.sequence ∙ p.number;
      }

  Created-HasPost :
      (env : Env) (s t : State) (x : Created env s t)
      → HasPost t x.author (load_author s x.author).next_sequence
  Created-HasPost env s t x = record {
    id = x.id;
    rec = x.rec;
    found = ground (arith, x.posts, get-put s.posts x.id x.rec x.id, equal_iff x.id x.id);
    by = x.author_is;
    number = x.sequence_is;
  }

  every_number-HasPost :
      (ledger : usage.Ledger) (a : Bytes) (k : ℕ) {n : ℕ} {s : State}
      → Reach (fresh ledger) n s
      → n + 1 < u64_mod
      → 1 ≤ k
      → k < (load_author s a).next_sequence
      → HasPost s a k
  every_number-HasPost ledger a k here b low high =
      absurd (omega (arith, ap (λ (z : AuthorState). z.next_sequence) (fresh-load_author ledger a)))
  every_number-HasPost ledger a k (next {n = n} {t = t} {u = u} env r st) b low high =
      elim (Step-Effect env t u st) [
        | unchanged x ↦ Effect-HasPost env t u a k (unchanged x) (
            every_number-HasPost ledger a k r (omega arith) low
              (rw (load_author_same t u a x.authors) at high))
        | changed x ↦ Effect-HasPost env t u a k (changed x) (
            every_number-HasPost ledger a k r (omega arith) low
              (rw (load_author_same t u a x.authors) at high))
        | created x ↦ elim (load_author_after env t u x a) [
          | inr same ↦
              Effect-HasPost env t u a k (created x)
                (every_number-HasPost ledger a k r (omega arith) low (rw same at high))
          | inl (own, moved) ↦
              let (_, bound) = author_counters ledger a r in
              elim (below_or_last k (load_author t a).next_sequence
                (omega (arith, rw moved at high))) [
                  | inl before ↦
                      Effect-HasPost env t u a k (created x)
                        (every_number-HasPost ledger a k r (omega arith) low before)
                  | inr last ↦ rw last (rw own at (Created-HasPost env t u x))
                ]
        ]
      ]

  next_is_positive :
      (ledger : usage.Ledger) (a : Bytes) {n : ℕ} {s : State}
      → Reach (fresh ledger) n s
      → n + 1 < u64_mod
      → 1 ≤ (load_author s a).next_sequence
  next_is_positive ledger a here b = rw (fresh-load_author ledger a) (omega arith)
  next_is_positive ledger a (next {n = n} {t = t} {u = u} env r st) b =
      elim (Step-Effect env t u st) [
        | unchanged x ↦
            rw (load_author_same t u a x.authors) (next_is_positive ledger a r (omega arith))
        | changed x ↦
            rw (load_author_same t u a x.authors) (next_is_positive ledger a r (omega arith))
        | created x ↦ elim (load_author_after env t u x a) [
          | inr same ↦ rw same (next_is_positive ledger a r (omega arith))
          | inl (_, moved) ↦ let (_, bound) = author_counters ledger a r in rw moved (omega arith)
        ]
      ]

  number_is_positive :
      (ledger : usage.Ledger) (id : Bytes) (rec : PostRecord) {n : ℕ} {s : State}
      → Reach (fresh ledger) n s
      → n + 1 < u64_mod
      → get s.posts id ≡ some rec
      → 1 ≤ rec.sequence
  number_is_positive ledger id rec here b h = ground (arith, get-empty {V = PostRecord} id)
  number_is_positive ledger id rec (next {n = n} {t = t} {u = u} env r st) b h =
      elim (Step-Effect env t u st) [
        | unchanged x ↦ number_is_positive ledger id rec r (omega arith) (rw x.posts at h)
        | changed x ↦
            let (old, found, _, same) = Changed-origin t u x id rec h in
            rw same (number_is_positive ledger id old r (omega arith) found)
        | created x ↦ elim (Created-origin env t u x id rec h) [
          | inl before ↦ number_is_positive ledger id rec r (omega arith) before
          | inr (_, this) ↦
              rw (this, x.sequence_is) (next_is_positive ledger x.author r (omega arith))
        ]
      ]

  -- On a new contract, after any history of fewer calls than there are sequence numbers, the posts of
  -- an author are numbered from 1 without a gap: a number is that of a stored post of the author exactly
  -- if it is at least 1 and below the author's next number.
  pub numbers_are_gapless :
      (ledger : usage.Ledger) (a : Bytes) (k : ℕ) {n : ℕ} {s : State}
      → Reach (fresh ledger) n s
      → n + 1 < u64_mod
      → ((1 ≤ k) × (k < (load_author s a).next_sequence)) ↔ HasPost s a k
  numbers_are_gapless ledger a k r b = (
    λ (low, high). every_number-HasPost ledger a k r b low high,
    λ p. (
      rw (← p.number) (number_is_positive ledger p.id p.rec r b p.found),
      rw (← p.number, ← p.by) (sequence_below_next ledger p.id p.rec r b p.found),
    ),
  )
