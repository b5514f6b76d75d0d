-- ===== src/Base/Dict.antt =====
-- Python's `dict`: an association list in insertion order. `d[k] = v` keeps the place of a key that
-- is there and appends one that is not.
use production_stack.Base.Names.{
  suc, ◌≡◌, refl, sym, ap, subst, inl, inr, Bool, true, false, ◌||◌, Option, none, some, List, [],
  ◌∷◌, arith,
}
use production_stack.Base.Tests.{if◌then◌else◌, Bool-cases}
use production_stack.Base.Eq.{Eq, ◌==◌, contains, beq_refl}
use production_stack.Base.Lists.{length, Distinct, All}

abbrev pub Dict {ℓ κ} : Type ℓ → Type κ → Type (ℓ ⊔ κ)
Dict K V = List (K × V)

module _ {ℓ κ} {K : Type ℓ} {V : Type κ} ⦃e : Eq K⦄ where
  -- d.get(k)
  unfoldable pub get : Dict K V → K → Option V
  get [] k = none
  get ((j, v) ∷ d) k = if j == k then some v else get d k

  -- k in d
  unfoldable pub has : Dict K V → K → Bool
  has [] k = false
  has ((j, v) ∷ d) k = j == k || has d k

  -- d[k] = v
  unfoldable pub put : Dict K V → K → V → Dict K V
  put [] k v = (k, v) ∷ []
  put ((j, w) ∷ d) k v = if j == k then (j, v) ∷ d else (j, w) ∷ put d k v

  -- d.pop(k, None)
  unfoldable pub del : Dict K V → K → Dict K V
  del [] k = []
  del ((j, w) ∷ d) k = let rest = del d k in if j == k then rest else (j, w) ∷ rest

  pub get-put :
      (d : Dict K V) (written : K) (v : V) (asked : K)
      → get (put d written v) asked ≡ (if written == asked then some v else get d asked)
  unfolding put get
  get-put [] k v j = refl
  get-put ((i, w) ∷ d) k v j =
      ground (arith, e.beq_iff i k, e.beq_iff i j, e.beq_iff k j, get-put d k v j)

  pub get-del : (d : Dict K V) (k j : K) → get (del d k) j ≡ (if k == j then none else get d j)
  unfolding get del
  get-del [] k j = ground arith
  get-del ((i, w) ∷ d) k j =
      ground (arith, e.beq_iff i k, e.beq_iff i j, e.beq_iff k j, get-del d k j)

  pub has-get : (d : Dict K V) (k : K) → has d k ≡ elim (get d k) [ none ↦ false | some v ↦ true ]
  unfolding get has
  has-get [] k = refl
  has-get ((j, v) ∷ d) k = ground (arith, has-get d k)

  pub length-put :
      (d : Dict K V) (k : K) (v : V)
      → length (put d k v) ≡ (if has d k then length d else suc (length d))
  unfolding put has
  length-put [] k v = refl
  length-put ((j, w) ∷ d) k v = ground (arith, length-put d k v)

module _ {ℓ κ} {K : Type ℓ} {V : Type κ} where
  -- d.keys(), d.values()
  abbrev pub keys : Dict K V → List K
  keys [] = []
  keys ((k, v) ∷ d) = k ∷ keys d

  abbrev pub values : Dict K V → List V
  values [] = []
  values ((k, v) ∷ d) = v ∷ values d

module _ {ℓ κ} {K : Type ℓ} {V : Type κ} ⦃e : Eq K⦄ where
  pub contains-keys : (d : Dict K V) (k : K) → contains (keys d) k ≡ has d k
  unfolding contains has
  contains-keys [] k = refl
  contains-keys ((j, v) ∷ d) k = ap (λ t. j == k || t) (contains-keys d k)

  -- d.get(k, x)
  abbrev pub get_or : Dict K V → K → V → V
  get_or d k x = elim (get d k) [ none ↦ x | some v ↦ v ]

  pub has-put : (d : Dict K V) (k : K) (v : V) (j : K) → has (put d k v) j ≡ (k == j || has d j)
  unfolding has put
  has-put [] k v j = refl
  has-put ((i, w) ∷ d) k v j =
      ground (arith, e.beq_iff i k, e.beq_iff i j, e.beq_iff k j, has-put d k v j)

  pub has-del : (d : Dict K V) (k j : K) → has (del d k) j ≡ (if k == j then false else has d j)
  unfolding has del
  has-del [] k j = ground arith
  has-del ((i, w) ∷ d) k j =
      ground (arith, e.beq_iff i k, e.beq_iff i j, e.beq_iff k j, has-del d k j)

  pub Distinct-put :
      (d : Dict K V) (k : K) (v : V) → Distinct (keys d) → Distinct (keys (put d k v))
  unfolding put contains
  Distinct-put [] k v n = (refl, tt)
  Distinct-put ((i, w) ∷ d) k v n = elim (Bool-cases (i == k)) [
    | inl p ↦ rw p n
    | inr p ↦ rw p (
      ground (
        arith,
        contains-keys (put d k v) i,
        contains-keys d i,
        has-put d k v i,
        e.beq_iff i k,
        e.beq_iff k i,
      ),
      Distinct-put d k v n.1,
    )
  ]

  pub Distinct-del : (d : Dict K V) (k : K) → Distinct (keys d) → Distinct (keys (del d k))
  unfolding del
  Distinct-del [] k n = tt
  Distinct-del ((i, w) ∷ d) k n = elim (Bool-cases (i == k)) [
    | inl p ↦ rw p (Distinct-del d k n.1)
    | inr p ↦ rw p (
      ground (arith, contains-keys (del d k) i, contains-keys d i, has-del d k i),
      Distinct-del d k n.1,
    )
  ]

  pub get-none-of-has : (d : Dict K V) (k : K) → has d k ≡ false → get d k ≡ none
  unfolding get has
  get-none-of-has [] k h = refl
  get-none-of-has ((i, w) ∷ d) k h = ground (arith, get-none-of-has d k)

  pub has-of-get : (d : Dict K V) (k : K) (v : V) → get d k ≡ some v → has d k ≡ true
  unfolding get has
  has-of-get [] k v h = ground arith
  has-of-get ((i, w) ∷ d) k v h = ground (arith, has-of-get d k v)

  pub get-of-has : (d : Dict K V) (k : K) → has d k ≡ true → (v : V) × (get d k ≡ some v)
  unfolding get has
  get-of-has [] k h = absurd (ground arith)
  get-of-has ((i, w) ∷ d) k h = elim (Bool-cases (i == k)) [
    | inl p ↦ (w, rw p)
    | inr p ↦ rw p (get-of-has d k (ground arith))
  ]

  pub get-put_self : (d : Dict K V) (k : K) (v : V) → get (put d k v) k ≡ some v
  get-put_self d k v = rw (get-put d k v k, beq_refl k)

  pub get_or-put_self : (d : Dict K V) (k : K) (v x : V) → get_or (put d k v) k x ≡ v
  get_or-put_self d k v x = rw (get-put_self d k v, get_or)

  -- What holds of every item and of a new one holds of every item behind the assignment.
  pub All-put {μ} :
      (Q : K × V → Type μ) (d : Dict K V) (k : K) (v : V) → All Q d → Q (k, v) → All Q (put d k v)
  unfolding put
  All-put Q [] k v h q = (q, tt)
  All-put Q ((i, w) ∷ d) k v h q = elim (Bool-cases (i == k)) [
    | inl p ↦ rw p (subst (λ j. Q (j, v)) (sym ((e.beq_iff i k).0 p)) q, h.1)
    | inr p ↦ rw p (h.0, All-put Q d k v h.1 q)
  ]

  -- Where no key stands twice, each item is what its key gives.
  pub get-of-item : (d : Dict K V) → Distinct (keys d) → All (λ x. get d x.0 ≡ some x.1) d
  unfolding get contains
  get-of-item [] n = tt
  get-of-item ((k, v) ∷ d) n = (ground (arith, e.beq_iff k k), later d n.0 (get-of-item d n.1))
    where
      later :
          (rest : Dict K V)
          → contains (keys rest) k ≡ false
          → All (λ x. get d x.0 ≡ some x.1) rest
          → All (λ x. get ((k, v) ∷ d) x.0 ≡ some x.1) rest
      later [] f h = tt
      later ((j, w) ∷ rest) f h =
          (ground (arith, h.0, f, e.beq_iff k j, e.beq_iff j k), later rest (ground (arith, f)) h.1)

  -- A value stands in an item.
  pub item-of-value {μ} :
      ⦃ev : Eq V⦄ (Q : K × V → Type μ) (d : Dict K V) (v : V)
      → All Q d
      → contains (values d) v ≡ true
      → (k : K) × Q (k, v)
  unfolding contains
  item-of-value ⦃ev⦄ Q [] v h c = absurd (ground (arith, c))
  item-of-value ⦃ev⦄ Q ((k, w) ∷ d) v h c = elim (Bool-cases (w == v)) [
    | inl p ↦ (k, subst (λ x. Q (k, x)) ((ev.beq_iff w v).0 p) h.0)
    | inr p ↦ item-of-value Q d v h.1 (ground (arith, p, c))
  ]
