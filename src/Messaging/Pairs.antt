-- ===== src/Messaging/Pairs.antt =====
-- The key of a conversation, which both sides of it compute.
use open_social_protocol.Prelude.{◌≡◌, ◌⊎◌, inl, inr, sym, ◌∙◌, arith, length, [], ◌∷◌}
use open_social_protocol.Chain.{Bytes}
use open_social_protocol.Chain.Util.{concat}
use open_social_protocol.Chain.Util.Compare.{compare-swap, eq_of_compare}
use open_social_protocol.Chain.Util.Concat.{concat_pair_injective}
use open_social_protocol.Messaging.Checks.{pair}

-- The two sides of a conversation compute the same key, whoever is named first.
pub pair_sym : (a b : Bytes) → pair a b ≡ pair b a
unfolding pair
pair_sym a b = ground (arith, compare-swap a b, eq_of_compare a b)

pair_cases : (a b : Bytes) → (pair a b ≡ concat (a ∷ b ∷ [])) ⊎ (pair a b ≡ concat (b ∷ a ∷ []))
unfolding pair
pair_cases a b = ground arith

-- Two conversations have the same key only if they are between the same two addresses: for
-- addresses of one length, equal keys come from equal pairs, up to the order of the two.
pub pair_injective :
    (a b c d : Bytes)
    → length a ≡ length c
    → length b ≡ length c
    → length d ≡ length c
    → pair a b ≡ pair c d
    → ((a ≡ c) × (b ≡ d)) ⊎ ((a ≡ d) × (b ≡ c))
pair_injective a b c d la lb ld h = elim (pair_cases a b) [
  | inl p ↦ elim (pair_cases c d) [
    | inl q ↦ inl (concat_pair_injective a c b d la (sym p ∙ h ∙ q))
    | inr q ↦ inr (concat_pair_injective a d b c (la ∙ sym ld) (sym p ∙ h ∙ q))
  ]
  | inr p ↦ elim (pair_cases c d) [
    | inl q ↦ let (x, y) = concat_pair_injective b c a d lb (sym p ∙ h ∙ q) in inr (y, x)
    | inr q ↦ let (x, y) = concat_pair_injective b d a c (lb ∙ sym ld) (sym p ∙ h ∙ q) in inl (y, x)
  ]
]
