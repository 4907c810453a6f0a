-- ===== src/Chain/Util/Compare.antt =====
-- Util.compare is a total order on byte arrays.
use open_social_protocol.Prelude.{◌≡◌, refl, [], ◌∷◌, arith}
use open_social_protocol.Chain.Storage.{Bytes}
use open_social_protocol.Chain.Util.{Sign, less, same, greater, compare}

-- The sign of the comparison the other way round.
abbrev pub flip : Sign → Sign
flip less = greater
flip same = same
flip greater = less

-- Swapping the two arrays swaps less and greater, and keeps same.
pub compare-swap : (a b : Bytes) → compare b a ≡ flip (compare a b)
unfolding compare
compare-swap [] [] = refl
compare-swap [] (y ∷ b) = refl
compare-swap (x ∷ a) [] = refl
compare-swap (x ∷ a) (y ∷ b) = ground (arith, compare-swap a b)

pub compare_refl : (a : Bytes) → compare a a ≡ same
unfolding compare
compare_refl [] = refl
compare_refl (x ∷ a) = ground (arith, compare_refl a)

-- Two arrays that compare as the same are equal.
pub eq_of_compare : (a b : Bytes) → compare a b ≡ same → a ≡ b
unfolding compare
eq_of_compare [] [] h = refl
eq_of_compare [] (y ∷ b) h = ground arith
eq_of_compare (x ∷ a) [] h = ground arith
eq_of_compare (x ∷ a) (y ∷ b) h = ground (arith, eq_of_compare a b)

-- If a first array is less than a second, and that less than a third, the first is less than the
-- third.
pub compare_trans : (a b c : Bytes) → compare a b ≡ less → compare b c ≡ less → compare a c ≡ less
unfolding compare
compare_trans [] [] [] h k = h
compare_trans [] (y ∷ b) [] h k = ground arith
compare_trans [] b (z ∷ c) h k = refl
compare_trans (x ∷ a) [] c h k = ground arith
compare_trans (x ∷ a) (y ∷ b) [] h k = ground arith
compare_trans (x ∷ a) (y ∷ b) (z ∷ c) h k = ground (arith, compare_trans a b c)
