-- ===== src/Routing/Rotation.antt =====
-- `xs[idx % len(xs)]`, by which three of the routers go round a list.
use native.Mathlib.Nat.{mod-add-mod, mod-lt, mod-eq_of_lt, add-mod_right}
use production_stack.Base.Names.{
  ℕ, suc, ◌+◌, ◌-◌, ◌%◌, ◌<◌, ◌≡◌, sym, ap, ◌∙◌, inl, inr, true, Option, none, some, List, [], ◌∷◌,
  arith,
}
use production_stack.Base.Tests.{ltb, Bool-cases}
use production_stack.Base.Eq.{Eq, ◌==◌, contains}
use production_stack.Base.Lists.{length, get_elem?, get_elem?-lt, contains-get_elem?}
use production_stack.Base.Outcome.{Outcome, return, raise, zero_division, index_error}

module _ {ℓ} {A : Type ℓ} where
  abbrev pub or_index_error : Option A → Outcome A
  or_index_error none = raise index_error
  or_index_error (some a) = return a

  unfoldable pub pick : List A → ℕ → Outcome A
  pick [] idx = raise zero_division
  pick (x ∷ xs) idx = or_index_error (get_elem? (x ∷ xs) (idx % length (x ∷ xs)))

  pub pick-get_elem? :
      (xs : List A) (idx : ℕ)
      → 0 < length xs
      → (a : A) × (pick xs idx ≡ return a) × (get_elem? xs (idx % length xs) ≡ some a)
  unfolding pick
  pick-get_elem? [] idx h = absurd (omega arith)
  pick-get_elem? (x ∷ xs) idx h =
      let (a, e) = get_elem?-lt (x ∷ xs) (idx % length (x ∷ xs)) (omega arith) in
      (a, ap or_index_error e, e)

-- From any index, the next `n` indices meet every remainder.
rotate_index : (n idx j : ℕ) → j < n → (i : ℕ) × (i < n) × ((idx + i) % n ≡ j)
rotate_index n idx j h = elim (Bool-cases (ltb j (idx % n))) [
  | inl p ↦
      let past : idx % n + (j + n - idx % n) ≡ j + n = omega (arith, mod-lt idx (positive h)) in
      (
        j + n - idx % n,
        ground arith,
        wrap idx (j + n - idx % n)
            ∙ ap (λ (t : ℕ). t % n) past
            ∙ add-mod_right j n
            ∙ mod-eq_of_lt h,
      )
  | inr p ↦
      let here : idx % n + (j - idx % n) ≡ j = ground arith in
      (
        j - idx % n,
        ground arith,
        wrap idx (j - idx % n) ∙ ap (λ (t : ℕ). t % n) here ∙ mod-eq_of_lt h,
      )
]
  where
    positive : {a b : ℕ} → a < b → 0 < b
    positive l = omega arith

    wrap : (a b : ℕ) → (a + b) % n ≡ (a % n + b) % n
    wrap a b = sym (mod-add-mod a n b)

module _ {ℓ} {A : Type ℓ} ⦃e : Eq A⦄ where
  pub contains-pick :
      (xs : List A) (idx : ℕ)
      → 0 < length xs
      → (a : A) × (pick xs idx ≡ return a) × (contains xs a ≡ true)
  contains-pick xs idx h =
      let (a, p, q) = pick-get_elem? xs idx h in (a, p, contains-get_elem? xs (idx % length xs) a q)

  index_of :
      (xs : List A) (a : A)
      → contains xs a ≡ true
      → (j : ℕ) × (j < length xs) × (get_elem? xs j ≡ some a)
  unfolding contains
  index_of [] a h = absurd (ground arith)
  index_of (x ∷ xs) a h = elim (Bool-cases (x == a)) [
    | inl p ↦ (0, omega arith, ap some ((e.beq_iff x a).0 p))
    | inr p ↦ let (j, l, q) = index_of xs a (ground arith) in (suc j, omega arith, q)
  ]

  -- Going round: from any index, each element is picked within `length xs` picks.
  pub pick_covers :
      (xs : List A) (idx : ℕ) (a : A)
      → contains xs a ≡ true
      → (i : ℕ) × (i < length xs) × (pick xs (idx + i) ≡ return a)
  pick_covers xs idx a h =
      let (j, l, q) = index_of xs a h in
      let (i, l', r) = rotate_index (length xs) idx j l in
      let (b, p, q') = pick-get_elem? xs (idx + i) (omega arith) in
      (i, l', p ∙ ap or_index_error (sym q' ∙ ap (get_elem? xs) r ∙ q))
