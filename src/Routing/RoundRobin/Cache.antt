-- ===== src/Routing/RoundRobin/Cache.antt =====
-- The key of an endpoint set, with and without the cache.
use production_stack.Base.Names.{
  ◌≤◌, String, ◌≡◌, refl, sym, ap, ◌∙◌, inl, inr, true, some, List, [], ◌∷◌, ◌++◌, arith,
}
use production_stack.Base.Tests.{leb, Bool-cases, Option-cases}
use production_stack.Base.Eq.{◌==◌, string_eq, list_eq, contains}
use production_stack.Base.Lists.{length, all, dedup, Distinct, dedup-Distinct, length-append}
use production_stack.Base.Sort.{
  sorted, SameSet, sorted-IsSorted, sorted-Distinct, sorted_unique, contains-sort_by,
}
use production_stack.Base.Text.{str_leb}
use production_stack.Base.Outcome.{return}
use production_stack.Endpoint.{EndpointInfo, urls}
use production_stack.Routing.RoundRobin.{
  RoundRobinRouter, init, max_cache_size, same_set, cached, remember, endpoint_key,
}

all-contains :
    (xs ys : List String) (a : String)
    → all (contains ys) xs ≡ true
    → contains xs a ≡ true
    → contains ys a ≡ true
unfolding contains
all-contains [] ys a h k = ground arith
all-contains (x ∷ xs) ys a h k = elim (Bool-cases (x == a)) [
  | inl p ↦ ground (arith, ap (contains ys) ((string_eq.beq_iff x a).0 p))
  | inr p ↦ all-contains xs ys a (ground arith) (ground arith)
]

same_set-SameSet : (xs ys : List String) → same_set xs ys ≡ true → SameSet xs ys
unfolding same_set
same_set-SameSet xs ys h a = elim (Bool-cases (contains xs a)) [
  | inl p ↦ p ∙ sym (all-contains xs ys a (ground arith) p)
  | inr p ↦ elim (Bool-cases (contains ys a)) [
    | inl q ↦ ground (arith, all-contains ys xs a)
    | inr q ↦ p ∙ sym q
  ]
]

sorted-SameSet :
    (xs ys : List String) → Distinct xs → Distinct ys → SameSet xs ys → sorted xs ≡ sorted ys
sorted-SameSet xs ys d d' same =
    sorted_unique (sorted xs) (sorted ys) (sorted-IsSorted xs) (sorted-IsSorted ys)
      (sorted-Distinct xs d) (sorted-Distinct ys d')
      λ a. contains-sort_by str_leb xs a ∙ same a ∙ sym (contains-sort_by str_leb ys a)

-- Every entry of the cache is a set with its sorted tuple.
abbrev pub Coherent : List (List String × List String) → Type 0
Coherent [] = Unit
Coherent ((us, key) ∷ rest) = (Distinct us) × (key ≡ sorted us) × Coherent rest

cached-sorted :
    (cache : List (List String × List String)) (us key : List String)
    → Coherent cache
    → Distinct us
    → cached cache us ≡ some key
    → key ≡ sorted us
unfolding cached
cached-sorted [] us key c d h = ground arith
cached-sorted ((vs, k) ∷ rest) us key c d h = elim (Bool-cases (same_set vs us)) [
  | inl p ↦ ground (arith, sorted-SameSet vs us c.0 d (same_set-SameSet vs us p))
  | inr p ↦ cached-sorted rest us key c.2 d (ground arith)
]

Coherent-append :
    (cache : List (List String × List String)) (us : List String)
    → Coherent cache
    → Distinct us
    → Coherent (cache ++ (us, sorted us) ∷ [])
Coherent-append [] us c d = (d, refl, tt)
Coherent-append ((vs, k) ∷ rest) us c d = (c.0, c.1, Coherent-append rest us c.2 d)

remember-Coherent :
    (cache : List (List String × List String)) (us : List String)
    → Coherent cache
    → Distinct us
    → Coherent (remember cache us)
unfolding remember
remember-Coherent cache us c d = elim (Bool-cases (leb max_cache_size (length cache))) [
  | inl p ↦ rw p (d, refl, tt)
  | inr p ↦ rw p (Coherent-append cache us c d)
]

length-remember-le :
    (cache : List (List String × List String)) (us : List String)
    → length cache ≤ max_cache_size
    → length (remember cache us) ≤ max_cache_size
unfolding remember
length-remember-le cache us h = ground (arith, length-append cache ((us, sorted us) ∷ []))

-- The caches stay within their bound, and the tuples in them are right.
pub record Inv (r : RoundRobinRouter) : Type 0 where
  pub coherent : Coherent r.sorted_cache
  pub sets : length r.sorted_cache ≤ max_cache_size
  pub indices : length r.next_index ≤ max_cache_size

pub init-Inv : Inv init
unfolding init
init-Inv = record { coherent = tt; sets = omega arith; indices = omega arith }

pub endpoint_key-Inv :
    (r : RoundRobinRouter) (endpoints : List EndpointInfo)
    → Inv r
    → Inv (endpoint_key r endpoints).1
unfolding endpoint_key
endpoint_key-Inv r [] v = v
endpoint_key-Inv r (e ∷ es) v =
    let us : List String = dedup (urls (e ∷ es)) in
    elim (Option-cases (cached r.sorted_cache us)) [
      | inl p ↦
          rw (p, endpoint_key)
            (record {
              coherent =
                  remember-Coherent r.sorted_cache us v.coherent (dedup-Distinct (urls (e ∷ es)));
              sets = length-remember-le r.sorted_cache us v.sets;
              indices = v.indices;
            })
      | inr (key, p) ↦ rw (p, endpoint_key) v
    ]

-- With or without a cached entry, the key of a non-empty endpoint list is the sorted tuple of its
-- distinct URLs.
pub endpoint_key-sorted :
    (r : RoundRobinRouter) (e : EndpointInfo) (es : List EndpointInfo)
    → Inv r
    → (endpoint_key r (e ∷ es)).0 ≡ return (sorted (dedup (urls (e ∷ es))))
unfolding endpoint_key
endpoint_key-sorted r e es v =
    let us : List String = dedup (urls (e ∷ es)) in
    elim (Option-cases (cached r.sorted_cache us)) [
      | inl p ↦ rw (p, endpoint_key)
      | inr (key, p) ↦
          rw (p, endpoint_key)
            (ap return
              (cached-sorted r.sorted_cache us key v.coherent (dedup-Distinct (urls (e ∷ es))) p))
    ]
