-- ===== src/Routing/Best.antt =====
-- The first best element of a list, as Python's `min` and `max` with a key find it, and as a loop
-- that replaces its best element only by a strictly better one does.
use mathlib.Core.List.{append-nil, append_assoc}
use production_stack.Base.Names.{
  ◌<◌, ◌≡◌, refl, sym, ap, ◌∙◌, ◌⊎◌, inl, inr, Bool, true, false, Option, none, some, List, [], ◌∷◌,
  ◌++◌, arith,
}
use production_stack.Base.Tests.{if◌then◌else◌, Bool-cases}
use production_stack.Base.Eq.{Eq, contains}
use production_stack.Base.Lists.{length, All, contains-append}

module _ {ℓ} {A : Type ℓ} (better : A → A → Bool) where
  unfoldable pub best_from : A → List A → A
  best_from best [] = best
  best_from best (x ∷ xs) = best_from (if better x best then x else best) xs

  unfoldable pub first_best : List A → Option A
  unfolding best_from
  first_best [] = none
  first_best (x ∷ xs) = some (best_from x xs)

  -- `better` is a strict weak order.
  pub record IsOrder : Type ℓ where
    pub better_irrefl : (a : A) → better a a ≡ false
    pub better_trans : (a b c : A) → better a b ≡ true → better b c ≡ true → better a c ≡ true
    pub better_cotrans : (a b c : A) → better a c ≡ true → (better a b ≡ true) ⊎ (better b c ≡ true)

  -- `a` is better than all that stand before it, and nothing behind it is better.
  abbrev pub IsFirstBest : A → List A → Type ℓ
  IsFirstBest a xs =
      (pre post : List A) × (xs ≡ pre ++ a ∷ post)
      × All (λ x. better a x ≡ true) pre
      × All (λ x. better x a ≡ false) post

  All-append {κ} : (P : A → Type κ) (xs ys : List A) → All P xs → All P ys → All P (xs ++ ys)
  All-append P [] ys h k = k
  All-append P (x ∷ xs) ys h k = (h.0, All-append P xs ys h.1 k)

  All-map {κ μ} :
      (P : A → Type κ) (Q : A → Type μ) (xs : List A) → ((x : A) → P x → Q x) → All P xs → All Q xs
  All-map P Q [] f h = tt
  All-map P Q (x ∷ xs) f h = (f x h.0, All-map P Q xs f h.1)

module _ {ℓ} {A : Type ℓ} (better : A → A → Bool) (order : IsOrder better) where
  -- A better element is better than all that the last best one has left behind.
  displaces :
      (a x : A) (pre post : List A)
      → better x a ≡ true
      → All (λ y. better a y ≡ true) pre
      → All (λ y. better y a ≡ false) post
      → All (λ y. better x y ≡ true) (pre ++ a ∷ post)
  displaces a x pre post h p q =
      All-append better _ pre (a ∷ post)
        (All-map better _ _ pre (λ y k. order.better_trans x a y h k) p)
        (h, All-map better _ _ post behind q)
    where
      behind : (y : A) → better y a ≡ false → better x y ≡ true
      behind y k = elim (order.better_cotrans x y a h) [ inl l ↦ l | inr l ↦ cc ]

  best_from-IsFirstBest :
      (best : A) (xs pre post whole : List A)
      → whole ≡ (pre ++ best ∷ post) ++ xs
      → All (λ y. better best y ≡ true) pre
      → All (λ y. better y best ≡ false) post
      → IsFirstBest better (best_from better best xs) whole
  unfolding best_from
  best_from-IsFirstBest best [] pre post whole e p q = (pre, post, e ∙ append-nil _, p, q)
  best_from-IsFirstBest best (x ∷ xs) pre post whole e p q = elim (Bool-cases (better x best)) [
    | inl h ↦ rw h (
        best_from-IsFirstBest x xs (pre ++ best ∷ post) [] whole
          (e ∙ sym (append_assoc (pre ++ best ∷ post) (x ∷ []) xs))
          (displaces best x pre post h p q) tt)
    | inr h ↦ rw h (
        best_from-IsFirstBest best xs pre (post ++ x ∷ []) whole (e ∙ regroup) p
          (All-append better _ post (x ∷ []) q (h, tt)))
  ]
    where
      regroup : (pre ++ best ∷ post) ++ x ∷ xs ≡ (pre ++ best ∷ (post ++ x ∷ [])) ++ xs
      regroup = simp append_assoc

  -- A non-empty list has a first best element, and it is found.
  pub first_best-IsFirstBest :
      (x : A) (xs : List A)
      → (a : A) × (first_best better (x ∷ xs) ≡ some a) × IsFirstBest better a (x ∷ xs)
  unfolding first_best
  first_best-IsFirstBest x xs =
      (best_from better x xs, refl, best_from-IsFirstBest x xs [] [] (x ∷ xs) refl tt tt)

module _ {ℓ} {A : Type ℓ} (better : A → A → Bool) (order : IsOrder better) where
  pub first_best-nonempty :
      (xs : List A)
      → 0 < length xs
      → (a : A) × (first_best better xs ≡ some a) × IsFirstBest better a xs
  first_best-nonempty [] h = absurd (omega arith)
  first_best-nonempty (x ∷ xs) h = first_best-IsFirstBest better order x xs

-- The element found stands in the list.
pub IsFirstBest-mem {ℓ} :
    {A : Type ℓ} ⦃e : Eq A⦄ (better : A → A → Bool) (a : A) (xs : List A)
    → IsFirstBest better a xs
    → contains xs a ≡ true
unfolding contains
IsFirstBest-mem ⦃e⦄ better a xs (pre, post, p, _, _) =
    ap (λ l. contains l a) p ∙ contains-append pre (a ∷ post) a ∙ ground (arith, e.beq_iff a a)
