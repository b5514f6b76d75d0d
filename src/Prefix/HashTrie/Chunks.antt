-- ===== src/Prefix/HashTrie/Chunks.antt =====
-- The chunks of a request.
use production_stack.Base.Names.{
  ℕ, zero, suc, ◌≤◌, ◌<◌, ◌≡◌, refl, ap, ◌∙◌, List, [], ◌∷◌, ◌++◌, arith,
}
use production_stack.Base.Lists.{length, All}
use production_stack.Prefix.HashTrie.{take, drop, chunks_from, chunks}

unfoldable pub concat : List (List ℕ) → List ℕ
concat [] = []
concat (c ∷ cs) = c ++ concat cs

take-append-drop : (n : ℕ) (xs : List ℕ) → take n xs ++ drop n xs ≡ xs
take-append-drop zero xs = refl
take-append-drop (suc n) [] = refl
take-append-drop (suc n) (x ∷ xs) = ap (◌∷◌ x) (take-append-drop n xs)

length-drop-le : (n : ℕ) (xs : List ℕ) → length (drop n xs) ≤ length xs
length-drop-le zero xs = omega arith
length-drop-le (suc n) [] = omega arith
length-drop-le (suc n) (x ∷ xs) = omega (arith, length-drop-le n xs)

length-take-le : (n : ℕ) (xs : List ℕ) → length (take n xs) ≤ n
length-take-le zero xs = omega arith
length-take-le (suc n) [] = omega arith
length-take-le (suc n) (x ∷ xs) = omega (arith, length-take-le n xs)

concat-chunks_from :
    (fuel n : ℕ) (xs : List ℕ) → length xs ≤ fuel → concat (chunks_from fuel (suc n) xs) ≡ xs
unfolding concat chunks_from
concat-chunks_from zero n [] h = refl
concat-chunks_from zero n (x ∷ xs) h = absurd (omega arith)
concat-chunks_from (suc fuel) n [] h = refl
concat-chunks_from (suc fuel) n (x ∷ xs) h =
    ap (λ r. take (suc n) (x ∷ xs) ++ r)
      (concat-chunks_from fuel n (drop n xs) (omega (arith, length-drop-le n xs)))
    ∙ take-append-drop (suc n) (x ∷ xs)

abbrev pub Fits : ℕ → List ℕ → Type 0
Fits n c = (0 < length c) × (length c ≤ n)

chunks_from-Fits : (fuel n : ℕ) (xs : List ℕ) → All (Fits (suc n)) (chunks_from fuel (suc n) xs)
unfolding chunks_from
chunks_from-Fits zero n xs = tt
chunks_from-Fits (suc fuel) n [] = tt
chunks_from-Fits (suc fuel) n (x ∷ xs) =
    (omega (arith, length-take-le n xs), chunks_from-Fits fuel n (drop n xs))

-- For a positive chunk size, the chunks of a request put together are the request, none of them
-- is empty, and none is longer than the chunk size.
pub chunks_partition :
    (n : ℕ) (request : List ℕ)
    → 0 < n
    → (concat (chunks n request) ≡ request) × All (Fits n) (chunks n request)
unfolding chunks
chunks_partition zero request h = absurd (omega arith)
chunks_partition (suc n) request h = (
  concat-chunks_from (length request) n request (omega arith),
  chunks_from-Fits (length request) n request,
)
