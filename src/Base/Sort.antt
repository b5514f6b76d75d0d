-- ===== src/Base/Sort.antt =====
-- Python's `sorted`: stable, by a Boolean order. With the order of texts, a sorted list without
-- repetitions is determined by the set of its elements.
use production_stack.Base.Names.{
  suc, String, ◌≡◌, refl, sym, ap, ◌∙◌, inl, inr, Bool, true, false, ◌||◌, List, [], ◌∷◌, arith,
}
use production_stack.Base.Tests.{if◌then◌else◌, Bool-cases}
use production_stack.Base.Eq.{Eq, ◌==◌, string_eq, contains}
use production_stack.Base.Lists.{length, All, Distinct, dedup, contains-dedup, dedup-Distinct}
use production_stack.Base.Text.{
  str_leb, str_leb_refl, str_leb_total, str_leb_trans, str_leb_antisym,
}

module _ {ℓ} {A : Type ℓ} (le : A → A → Bool) where
  unfoldable pub insert_sorted : A → List A → List A
  insert_sorted a [] = a ∷ []
  insert_sorted a (x ∷ xs) = if le a x then a ∷ x ∷ xs else x ∷ insert_sorted a xs

  unfoldable pub sort_by : List A → List A
  unfolding insert_sorted
  sort_by [] = []
  sort_by (x ∷ xs) = insert_sorted x (sort_by xs)

  pub length-insert_sorted : (a : A) (xs : List A) → length (insert_sorted a xs) ≡ suc (length xs)
  unfolding insert_sorted
  length-insert_sorted a [] = refl
  length-insert_sorted a (x ∷ xs) = ground (arith, length-insert_sorted a xs)

  pub length-sort_by : (xs : List A) → length (sort_by xs) ≡ length xs
  unfolding sort_by
  length-sort_by [] = refl
  length-sort_by (x ∷ xs) = length-insert_sorted x (sort_by xs) ∙ ap suc (length-sort_by xs)

module _ {ℓ} {A : Type ℓ} ⦃e : Eq A⦄ (le : A → A → Bool) where
  contains-insert_sorted :
      (a : A) (xs : List A) (b : A) → contains (insert_sorted le a xs) b ≡ (a == b || contains xs b)
  unfolding insert_sorted contains
  contains-insert_sorted a [] b = refl
  contains-insert_sorted a (x ∷ xs) b = ground (arith, contains-insert_sorted a xs b)

  pub contains-sort_by : (xs : List A) (b : A) → contains (sort_by le xs) b ≡ contains xs b
  unfolding sort_by contains
  contains-sort_by [] b = refl
  contains-sort_by (x ∷ xs) b =
      contains-insert_sorted x (sort_by le xs) b ∙ ap (λ t. x == b || t) (contains-sort_by xs b)

-- sorted(urls)
abbrev pub sorted : List String → List String
sorted = sort_by str_leb

abbrev pub IsSorted : List String → Type 0
IsSorted [] = Unit
IsSorted (x ∷ xs) = All (λ y. str_leb x y ≡ true) xs × IsSorted xs

All-insert_sorted :
    (b a : String) (xs : List String)
    → str_leb b a ≡ true
    → All (λ y. str_leb b y ≡ true) xs
    → All (λ y. str_leb b y ≡ true) (insert_sorted str_leb a xs)
unfolding insert_sorted
All-insert_sorted b a [] h k = (h, tt)
All-insert_sorted b a (x ∷ xs) h k = elim (Bool-cases (str_leb a x)) [
  | inl p ↦ rw p (h, k)
  | inr p ↦ rw p (k.0, All-insert_sorted b a xs h k.1)
]

All-str_leb_trans :
    (a x : String) (xs : List String)
    → str_leb a x ≡ true
    → All (λ y. str_leb x y ≡ true) xs
    → All (λ y. str_leb a y ≡ true) xs
All-str_leb_trans a x [] h k = tt
All-str_leb_trans a x (y ∷ ys) h k = (str_leb_trans a x y h k.0, All-str_leb_trans a x ys h k.1)

insert_sorted-IsSorted :
    (a : String) (xs : List String) → IsSorted xs → IsSorted (insert_sorted str_leb a xs)
unfolding insert_sorted
insert_sorted-IsSorted a [] h = (tt, tt)
insert_sorted-IsSorted a (x ∷ xs) h = elim (Bool-cases (str_leb a x)) [
  | inl p ↦ rw p ((p, All-str_leb_trans a x xs p h.0), h)
  | inr p ↦
      rw p (All-insert_sorted x a xs (str_leb_total a x p) h.0, insert_sorted-IsSorted a xs h.1)
]

pub sorted-IsSorted : (xs : List String) → IsSorted (sorted xs)
unfolding sort_by
sorted-IsSorted [] = tt
sorted-IsSorted (x ∷ xs) = insert_sorted-IsSorted x (sorted xs) (sorted-IsSorted xs)

Distinct-insert_sorted :
    (a : String) (xs : List String)
    → contains xs a ≡ false
    → Distinct xs
    → Distinct (insert_sorted str_leb a xs)
unfolding insert_sorted contains
Distinct-insert_sorted a [] h d = (refl, tt)
Distinct-insert_sorted a (x ∷ xs) h d = elim (Bool-cases (str_leb a x)) [
  | inl p ↦ rw p (h, d)
  | inr p ↦ rw p (
    ground (
      arith,
      contains-insert_sorted str_leb a xs x,
      string_eq.beq_iff x a,
      string_eq.beq_iff a x,
    ),
    Distinct-insert_sorted a xs (ground arith) d.1,
  )
]

pub sorted-Distinct : (xs : List String) → Distinct xs → Distinct (sorted xs)
unfolding sort_by
sorted-Distinct [] d = tt
sorted-Distinct (x ∷ xs) d =
    Distinct-insert_sorted x (sorted xs) (contains-sort_by str_leb xs x ∙ d.0)
      (sorted-Distinct xs d.1)

-- Two texts lists with the same elements.
abbrev pub SameSet : List String → List String → Type 0
SameSet xs ys = (a : String) → contains xs a ≡ contains ys a

All-contains :
    (x : String) (xs : List String) (a : String)
    → All (λ y. str_leb x y ≡ true) xs
    → contains xs a ≡ true
    → str_leb x a ≡ true
unfolding contains
All-contains x [] a h k = ground arith
All-contains x (y ∷ ys) a h k = elim (Bool-cases (y == a)) [
  | inl p ↦ subst_leb ((string_eq.beq_iff y a).0 p) h.0
  | inr p ↦ All-contains x ys a h.1 (ground arith)
]
  where
    subst_leb : y ≡ a → str_leb x y ≡ true → str_leb x a ≡ true
    subst_leb q r = rw q at r

head_le :
    (x y : String) (xs ys : List String)
    → IsSorted (x ∷ xs)
    → SameSet (x ∷ xs) (y ∷ ys)
    → str_leb x y ≡ true
unfolding contains
head_le x y xs ys h same = elim (Bool-cases (x == y)) [
  | inl p ↦ rw ((string_eq.beq_iff x y).0 p) (str_leb_refl y)
  | inr p ↦ All-contains x xs y h.0 (ground (arith, same y, string_eq.beq_iff y y))
]

tail_SameSet :
    (x y : String) (xs ys : List String)
    → x ≡ y
    → contains xs x ≡ false
    → contains ys y ≡ false
    → SameSet (x ∷ xs) (y ∷ ys)
    → SameSet xs ys
unfolding contains
tail_SameSet x y xs ys p d d' same a = elim (Bool-cases (x == a)) [
  | inl q ↦ cc (
    ap (contains xs) ((string_eq.beq_iff x a).0 q),
    ap (contains ys) (sym p ∙ (string_eq.beq_iff x a).0 q),
  )
  | inr q ↦ ground (arith, same a, p, string_eq.beq_iff x a, string_eq.beq_iff y a)
]

pub sorted_unique :
    (xs ys : List String)
    → IsSorted xs
    → IsSorted ys
    → Distinct xs
    → Distinct ys
    → SameSet xs ys
    → xs ≡ ys
unfolding contains
sorted_unique [] [] s t d d' same = refl
sorted_unique [] (y ∷ ys) s t d d' same = ground (arith, same y, string_eq.beq_iff y y)
sorted_unique (x ∷ xs) [] s t d d' same = ground (arith, same x, string_eq.beq_iff x x)
sorted_unique (x ∷ xs) (y ∷ ys) s t d d' same =
    let head : x ≡ y =
      str_leb_antisym x y (head_le x y xs ys s same) (head_le y x ys xs t (λ a. sym (same a))) in
    let tail : xs ≡ ys =
      sorted_unique xs ys s.1 t.1 d.1 d'.1 (tail_SameSet x y xs ys head d.0 d'.0 same) in
    cc (head, tail)

-- tuple(sorted(frozenset(urls))) does not depend on the order or the repetitions of `urls`.
pub sorted-dedup_unique :
    (xs ys : List String) → SameSet xs ys → sorted (dedup xs) ≡ sorted (dedup ys)
sorted-dedup_unique xs ys same =
    sorted_unique (sorted (dedup xs)) (sorted (dedup ys)) (sorted-IsSorted _) (sorted-IsSorted _)
      (sorted-Distinct _ (dedup-Distinct xs)) (sorted-Distinct _ (dedup-Distinct ys))
      λ a.
        contains-sort_by str_leb (dedup xs) a
        ∙ contains-dedup xs a
        ∙ same a
        ∙ sym (contains-dedup ys a)
        ∙ sym (contains-sort_by str_leb (dedup ys) a)
