-- ===== src/Chain/Util/Concat.antt =====
-- The buffer that Util.concat fills is its parts one after another.
use mathlib.Core.List.{append_assoc, append-nil}
use open_social_protocol.Prelude.{
  ℕ, zero, suc, ◌+◌, ◌≡◌, refl, ap, sym, ◌∙◌, some, List, [], ◌∷◌, ◌++◌, arith, length, replicate,
  length-append,
}
use open_social_protocol.Chain.Storage.{Bytes}
use open_social_protocol.Chain.Util.{total_length, blit, fill, concat_buffer, concat}

blit_over :
    (a p b c : Bytes)
    → length p ≡ length b
    → blit (a ++ (b ++ c)) (length a) p ≡ some (a ++ (p ++ c))
unfolding blit
blit_over [] [] [] [] h = refl
blit_over [] [] [] (z ∷ c) h = refl
blit_over [] [] (y ∷ b) c h = absurd (omega arith)
blit_over [] (x ∷ p) [] c h = absurd (omega arith)
blit_over [] (x ∷ p) (y ∷ b) c h = rw (blit_over [] p b c (omega arith))
blit_over (z ∷ a) p b c h = rw (blit_over a p b c h)

replicate_add : (m n x : ℕ) → replicate (m + n) x ≡ replicate m x ++ replicate n x
replicate_add zero n x = ap (λ k. replicate k x) (omega arith)
replicate_add (suc m) n x =
    let e : suc m + n ≡ suc (m + n) = omega arith in rw e (ap (λ l. x ∷ l) (replicate_add m n x))

length-replicate : (n x : ℕ) → length (replicate n x) ≡ n
length-replicate zero x = refl
length-replicate (suc n) x = ap suc (length-replicate n x)

fill_over :
    (a : Bytes) (parts : List Bytes)
    → fill (a ++ replicate (total_length parts) 0) (length a) parts ≡ some (a ++ concat parts)
unfolding fill total_length
fill_over a [] = refl
fill_over a (p ∷ parts) = rw (replicate_add (length p) (total_length parts) 0) (
    rw
      (
        blit_over a p (replicate (length p) 0) (replicate (total_length parts) 0)
            (sym (length-replicate (length p) 0)),
        fill,
      )
      (rw (← append_assoc a p (replicate (total_length parts) 0), ← length-append a p)
        (rw (← append_assoc a p (concat parts)) (fill_over (a ++ p) parts))))

-- For every list of parts, the buffer that `concat` allocates and fills, part by part at a running
-- offset, is exactly the parts one after another: no write falls outside it, and none is missing.
pub concat_buffer-eq-concat : (parts : List Bytes) → concat_buffer parts ≡ some (concat parts)
unfolding concat_buffer
concat_buffer-eq-concat parts = fill_over [] parts

-- Two keys of two parts each, whose first parts are as long as each other, are equal only if the
-- parts are: keys of different accounts, or of different items of one account, never collide.
pub concat_pair_injective :
    (a b x y : Bytes)
    → length a ≡ length b
    → concat (a ∷ x ∷ []) ≡ concat (b ∷ y ∷ [])
    → (a ≡ b) × (x ≡ y)
concat_pair_injective [] [] x y h e = (refl, sym (append-nil x) ∙ e ∙ append-nil y)
concat_pair_injective [] (d ∷ b) x y h e = absurd (omega arith)
concat_pair_injective (c ∷ a) [] x y h e = absurd (omega arith)
concat_pair_injective (c ∷ a) (d ∷ b) x y h e =
    let (p, q) = concat_pair_injective a b x y (omega arith) (cc) in (cc, q)
