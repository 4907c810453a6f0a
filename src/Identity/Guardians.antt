-- ===== src/Identity/Guardians.antt =====
-- The approvals of a pending recovery: distinct guardians of the policy who have approved its owner, and
-- enough of them once the time of effect is fixed.
use open_social_protocol.Prelude.{
  ℕ, ◌≤◌, ◌≡◌, ◌⊎◌, refl, true, false, Option, none, some, arith, inl, inr, Bool-cases, ◌==◌, ◌&&◌,
  leb, ◌||◌, length, length-append, All, List, [], ◌∷◌, ◌++◌,
}
use open_social_protocol.Chain.{Bytes, Sdk, ok, add64}
use open_social_protocol.Identity.State.{RecoveryPolicy, PendingRecovery}
use open_social_protocol.Identity.Resolve.{contains}
use open_social_protocol.Identity.Recovery.{fresh_proposal, approve, fix_effective_at}

module _ ⦃sdk : Sdk⦄ where
  open sdk use {get, put, equal, get-put, get-empty, equal_iff}

  -- No address is listed twice.
  abbrev pub IsDistinct : List Bytes → Type 0
  IsDistinct [] = Unit
  IsDistinct (x ∷ xs) = (contains xs x ≡ false) × IsDistinct xs

  -- Every address is among the guardians.
  abbrev pub AllListed : List Bytes → List Bytes → Type 0
  AllListed guardians xs = All (λ g. contains guardians g ≡ true) xs

  equal-sym : (a b : Bytes) → equal a b ≡ equal b a
  equal-sym a b = ground (arith, equal_iff a b, equal_iff b a)

  contains-append :
      (xs : List Bytes) (g k : Bytes) → contains (xs ++ (g ∷ [])) k ≡ (contains xs k || equal g k)
  unfolding contains
  contains-append [] g k = ground arith
  contains-append (x ∷ xs) g k = ground (arith, contains-append xs g k)

  pub IsDistinct-append :
      (xs : List Bytes) (g : Bytes)
      → IsDistinct xs
      → contains xs g ≡ false
      → IsDistinct (xs ++ (g ∷ []))
  unfolding contains
  IsDistinct-append [] g d h = (refl, tt)
  IsDistinct-append (x ∷ xs) g d h = (
    ground (arith, contains-append xs g x, equal-sym g x),
    IsDistinct-append xs g d.1 (ground arith),
  )

  AllListed-append :
      (guardians xs : List Bytes) (g : Bytes)
      → AllListed guardians xs
      → contains guardians g ≡ true
      → AllListed guardians (xs ++ (g ∷ []))
  AllListed-append guardians [] g a h = (h, tt)
  AllListed-append guardians (x ∷ xs) g a h = (a.0, AllListed-append guardians xs g a.1 h)

  -- Every address has approved the owner at some time.
  abbrev pub AllSaid : (ℕ → Bytes → Bytes → Type 0) → Bytes → List Bytes → Type 0
  AllSaid said owner xs = All (λ g. (at : ℕ) × said at g owner) xs

  AllSaid-append :
      (said : ℕ → Bytes → Bytes → Type 0) (owner : Bytes) (xs : List Bytes) (at : ℕ) (g : Bytes)
      → AllSaid said owner xs
      → said at g owner
      → AllSaid said owner (xs ++ (g ∷ []))
  AllSaid-append said owner [] at g a h = ((at, h), tt)
  AllSaid-append said owner (x ∷ xs) at g a h = (a.0, AllSaid-append said owner xs at g a.1 h)

  AllSaid-more :
      (said more : ℕ → Bytes → Bytes → Type 0) (owner : Bytes) (xs : List Bytes)
      → ((at : ℕ) (g o : Bytes) → said at g o → more at g o)
      → AllSaid said owner xs
      → AllSaid more owner xs
  AllSaid-more said more owner [] f a = tt
  AllSaid-more said more owner (x ∷ xs) f a =
      ((a.0.0, f a.0.0 x owner a.0.1), AllSaid-more said more owner xs f a.1)

  -- The time of effect is the policy's delay after an approval, and the approvals are enough.
  pub record Fixed (said : ℕ → Bytes → Bytes → Type 0) (policy : RecoveryPolicy)
      (p : PendingRecovery) : Type 0 where
    pub enough : policy.threshold ≤ length p.approvals
    pub at : ℕ
    pub last : Bytes
    pub approved : said at last p.new_owner
    pub delayed : p.effective_at ≡ add64 at policy.delay_ms

  -- The approvals of a pending recovery are by distinct guardians of the policy, each has approved this
  -- new owner, and they are enough of them once the time of effect is fixed.
  pub record ApprovalSound (said : ℕ → Bytes → Bytes → Type 0) (policy : RecoveryPolicy)
      (p : PendingRecovery) : Type 0 where
    pub distinct : IsDistinct p.approvals
    pub listed : AllListed policy.guardians p.approvals
    pub given : AllSaid said p.new_owner p.approvals
    pub reached : (p.effective_at ≡ 0) ⊎ Fixed said policy p

  abbrev pub PendingSound :
      (ℕ → Bytes → Bytes → Type 0) → Option RecoveryPolicy → Option PendingRecovery → Type 0
  PendingSound said policy none = Unit
  PendingSound said none (some p) = ⊥
  PendingSound said (some policy) (some p) = ApprovalSound said policy p

  ApprovalSound-more :
      (said more : ℕ → Bytes → Bytes → Type 0) (policy : RecoveryPolicy) (p : PendingRecovery)
      → ((at : ℕ) (g o : Bytes) → said at g o → more at g o)
      → ApprovalSound said policy p
      → ApprovalSound more policy p
  ApprovalSound-more said more policy p f v = record {
    distinct = v.distinct;
    listed = v.listed;
    given = AllSaid-more said more p.new_owner p.approvals f v.given;
    reached = elim v.reached [
      | inl zero_time ↦ inl zero_time
      | inr x ↦ inr (record {
        enough = x.enough;
        at = x.at;
        last = x.last;
        approved = f x.at x.last p.new_owner x.approved;
        delayed = x.delayed;
      })
    ];
  }

  pub PendingSound-more :
      (said more : ℕ → Bytes → Bytes → Type 0) (policy : Option RecoveryPolicy)
      (p : Option PendingRecovery)
      → ((at : ℕ) (g o : Bytes) → said at g o → more at g o)
      → PendingSound said policy p
      → PendingSound more policy p
  PendingSound-more said more policy none f v = tt
  PendingSound-more said more none (some p) f v = absurd v
  PendingSound-more said more (some policy) (some p) f v = ApprovalSound-more said more policy p f v

  -- An approval starts a proposal, or adds one more guardian to that for the same owner.
  approve_cases :
      (now : ℕ) (g owner : Bytes) (q p : PendingRecovery)
      → approve now g owner (some q) ≡ ok p
      → (p ≡ fresh_proposal now g owner)
        ⊎ ((q.new_owner ≡ owner)
            × (contains q.approvals g ≡ false)
            × (p ≡ record q { approvals = q.approvals ++ (g ∷ []) }))
  unfolding approve
  approve_cases now g owner q p h = ground (arith, equal_iff q.new_owner owner)

  fresh_proposal-ApprovalSound :
      (said : ℕ → Bytes → Bytes → Type 0) (now : ℕ) (g owner : Bytes) (policy : RecoveryPolicy)
      → contains policy.guardians g ≡ true
      → said now g owner
      → ApprovalSound said policy (fresh_proposal now g owner)
  unfolding contains
  fresh_proposal-ApprovalSound said now g owner policy h told = record {
    distinct = (refl, tt);
    listed = (h, tt);
    given = ((now, told), tt);
    reached = inl refl;
  }

  added-ApprovalSound :
      (said : ℕ → Bytes → Bytes → Type 0) (now : ℕ) (g : Bytes) (policy : RecoveryPolicy)
      (q : PendingRecovery)
      → ApprovalSound said policy q
      → contains policy.guardians g ≡ true
      → contains q.approvals g ≡ false
      → said now g q.new_owner
      → ApprovalSound said policy (record q { approvals = q.approvals ++ (g ∷ []) })
  added-ApprovalSound said now g policy q v h fresh_one told = record {
    distinct = IsDistinct-append q.approvals g v.distinct fresh_one;
    listed = AllListed-append policy.guardians q.approvals g v.listed h;
    given = AllSaid-append said q.new_owner q.approvals now g v.given told;
    reached = elim v.reached [
      | inl zero_time ↦ inl zero_time
      | inr x ↦ inr (record {
        enough = let k = x.enough in omega (arith, length-append q.approvals (g ∷ []));
        at = x.at;
        last = x.last;
        approved = x.approved;
        delayed = x.delayed;
      })
    ];
  }

  pub approve-ApprovalSound :
      (said : ℕ → Bytes → Bytes → Type 0) (now : ℕ) (g owner : Bytes) (policy : RecoveryPolicy)
      (old : Option PendingRecovery) (p : PendingRecovery)
      → PendingSound said (some policy) old
      → contains policy.guardians g ≡ true
      → said now g owner
      → approve now g owner old ≡ ok p
      → ApprovalSound said policy p × (p.new_owner ≡ owner)
  unfolding approve
  approve-ApprovalSound said now g owner policy none p v h told e =
      let e' : p ≡ fresh_proposal now g owner = ground arith in
      rw e' (fresh_proposal-ApprovalSound said now g owner policy h told, refl)
  approve-ApprovalSound said now g owner policy (some q) p v h told e =
      elim (approve_cases now g owner q p e) [
        | inl e' ↦ rw e' (fresh_proposal-ApprovalSound said now g owner policy h told, refl)
        | inr (own, fresh_one, e') ↦
            rw e' (added-ApprovalSound said now g policy q v h fresh_one (rw own told), own)
      ]

  pub fix_effective_at-ApprovalSound :
      (said : ℕ → Bytes → Bytes → Type 0) (now : ℕ) (g : Bytes) (policy : RecoveryPolicy)
      (p : PendingRecovery)
      → ApprovalSound said policy p
      → said now g p.new_owner
      → ApprovalSound said policy (fix_effective_at now policy p)
  unfolding fix_effective_at
  fix_effective_at-ApprovalSound said now g policy p v told =
      elim (Bool-cases (p.effective_at == 0 && leb policy.threshold (length p.approvals))) [
        | inl now_fixed ↦ rw now_fixed (record {
          distinct = v.distinct;
          listed = v.listed;
          given = v.given;
          reached = inr (record {
            enough = ground arith;
            at = now;
            last = g;
            approved = told;
            delayed = refl;
          });
        })
        | inr not_now ↦ rw not_now v
      ]
