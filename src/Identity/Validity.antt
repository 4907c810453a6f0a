-- ===== src/Identity/Validity.antt =====
-- What `validate_policy` checks of a recovery policy.
use mathlib.Core.List.{append_assoc, append-nil}
use open_social_protocol.Prelude.{
  ◌≤◌, ◌≡◌, refl, sym, subst, false, arith, length, All, List, [], ◌∷◌, ◌++◌,
}
use open_social_protocol.Chain.{Bytes, Sdk, ok}
use open_social_protocol.Identity.State.{RecoveryPolicy}
use open_social_protocol.Identity.Resolve.{contains}
use open_social_protocol.Identity.Policy.{validate_policy, validate_guardians, require_distinct}
use open_social_protocol.Identity.Guardians.{IsDistinct, IsDistinct-append}

module _ ⦃sdk : Sdk⦄ where
  open sdk use {get, put, equal, get-put, get-empty, equal_iff}

  -- A policy that `validate_policy` accepts.
  pub record PolicyValid (account : Bytes) (policy : RecoveryPolicy) : Type 0 where
    pub distinct : IsDistinct policy.guardians
    pub others : All (λ g. equal g account ≡ false) policy.guardians
    pub positive : 1 ≤ policy.threshold
    pub reachable : policy.threshold ≤ length policy.guardians
    pub few : length policy.guardians ≤ 16
    pub delay : policy.delay_ms ≤ 31536000000

  require_distinct-contains :
      (seen : List Bytes) (g : Bytes) → require_distinct seen g ≡ ok tt → contains seen g ≡ false
  unfolding require_distinct contains
  require_distinct-contains [] g h = refl
  require_distinct-contains (j ∷ seen) g h = ground (arith, require_distinct-contains seen g)

  validate_guardians-cons :
      (account g : Bytes) (seen rest : List Bytes)
      → validate_guardians account seen (g ∷ rest) ≡ ok tt
      → (require_distinct seen g ≡ ok tt)
        × (validate_guardians account (seen ++ (g ∷ [])) rest ≡ ok tt)
  unfolding validate_guardians
  validate_guardians-cons account g seen rest h = ground arith

  validate_guardians-IsDistinct :
      (account : Bytes) (seen rest : List Bytes)
      → IsDistinct seen
      → validate_guardians account seen rest ≡ ok tt
      → IsDistinct (seen ++ rest)
  unfolding validate_guardians
  validate_guardians-IsDistinct account seen [] d h = subst IsDistinct (sym (append-nil seen)) d
  validate_guardians-IsDistinct account seen (g ∷ rest) d h =
      let (e, h3) = validate_guardians-cons account g seen rest h in
      subst IsDistinct (append_assoc seen (g ∷ []) rest) (
        validate_guardians-IsDistinct account (seen ++ (g ∷ [])) rest
          (IsDistinct-append seen g d (require_distinct-contains seen g e)) h3)

  validate_guardians-others :
      (account : Bytes) (seen rest : List Bytes)
      → validate_guardians account seen rest ≡ ok tt
      → All (λ g. equal g account ≡ false) rest
  unfolding validate_guardians
  validate_guardians-others account seen [] h = tt
  validate_guardians-others account seen (g ∷ rest) h =
      ground (arith, validate_guardians-others account (seen ++ (g ∷ [])) rest)

  pub validate_policy-PolicyValid :
      (policy : RecoveryPolicy) (account : Bytes)
      → validate_policy policy account ≡ ok tt
      → PolicyValid account policy
  unfolding validate_policy
  validate_policy-PolicyValid policy account h = ground (
    arith,
    validate_guardians-IsDistinct account [] policy.guardians,
    validate_guardians-others account [] policy.guardians,
  )
