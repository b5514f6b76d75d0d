-- ===== src/Routing/RoundRobin/Fairness.antt =====
-- What the round-robin router answers: an endpoint of the request, each in its turn.
use production_stack.Base.Names.{
  ℕ, zero, suc, ◌+◌, ◌≤◌, ◌<◌, String, ◌≡◌, refl, sym, ap, subst, ◌∙◌, true, List, [], ◌∷◌, arith,
}
use production_stack.Base.Eq.{string_eq, list_eq, contains}
use production_stack.Base.Lists.{length, dedup, contains-dedup}
use production_stack.Base.Sort.{
  sorted, SameSet, sorted-dedup_unique, contains-sort_by, length-sort_by,
}
use production_stack.Base.Text.{str_leb}
use production_stack.Base.Dict
use production_stack.Base.Dict.{Dict, get_or-put_self, length-put}
use production_stack.Base.Outcome.{Outcome, return, raise}
use production_stack.Endpoint.{EndpointInfo, urls}
use production_stack.Routing.Rotation.{pick, contains-pick, pick_covers}
use production_stack.Routing.RoundRobin.{
  RoundRobinRouter, max_cache_size, endpoint_key, advance, rotate, route_key, route_request,
}
use production_stack.Routing.RoundRobin.Cache.{Inv, endpoint_key-Inv, endpoint_key-sorted}

-- tuple(sorted(frozenset(urls)))
abbrev pub key_of : List EndpointInfo → List String
key_of endpoints = sorted (dedup (urls endpoints))

contains-key_of :
    (endpoints : List EndpointInfo) (u : String)
    → contains (key_of endpoints) u ≡ contains (urls endpoints) u
contains-key_of endpoints u =
    contains-sort_by str_leb (dedup (urls endpoints)) u ∙ contains-dedup (urls endpoints) u

length-pos : (xs : List String) (u : String) → contains xs u ≡ true → 0 < length xs
unfolding contains
length-pos [] u h = ground arith
length-pos (x ∷ xs) u h = omega arith

key_of-pos : (e : EndpointInfo) (es : List EndpointInfo) → 0 < length (key_of (e ∷ es))
key_of-pos e es = length-pos (key_of (e ∷ es)) e.url (contains-key_of (e ∷ es) e.url ∙ first)
  where
    first : contains (urls (e ∷ es)) e.url ≡ true
    first = unfold contains in ground (arith, string_eq.beq_iff e.url e.url)

next_index-endpoint_key :
    (r : RoundRobinRouter) (endpoints : List EndpointInfo)
    → (endpoint_key r endpoints).1.next_index ≡ r.next_index
unfolding endpoint_key
next_index-endpoint_key r [] = refl
next_index-endpoint_key r (e ∷ es) = ground arith

get_or-advance :
    (table : Dict (List String) ℕ) (key : List String)
    → Dict.get_or (advance table key) key 0 ≡ Dict.get_or table key 0 + 1
unfolding advance
get_or-advance table key = get_or-put_self _ key (Dict.get_or table key 0 + 1) 0

length-advance :
    (table : Dict (List String) ℕ) (key : List String)
    → length table ≤ max_cache_size
    → length (advance table key) ≤ max_cache_size
unfolding advance
length-advance table key h = ground (
  arith,
  length-put table key (Dict.get_or table key 0 + 1),
  length-put {V = ℕ} [] key (Dict.get_or table key 0 + 1),
)

-- What a call answers and leaves behind, for a key and the index table before it.
abbrev Answered : List String → Dict (List String) ℕ → Outcome String × RoundRobinRouter → Type 0
Answered key table p =
    (p.0 ≡ pick key (Dict.get_or table key 0)) × (p.1.next_index ≡ advance table key) × Inv p.1

return_inj {ℓ} : {A : Type ℓ} (a b : A) → return a ≡ return b → a ≡ b
return_inj a b p = cc

rotate-Answered :
    (key : List String) (r : RoundRobinRouter) → Inv r → Answered key r.next_index (rotate r key)
unfolding rotate
rotate-Answered key r v = (
  refl,
  refl,
  record {
    coherent = v.coherent;
    sets = v.sets;
    indices = length-advance r.next_index key v.indices;
  },
)

route_key-Answered :
    (key : List String) (p : Outcome (List String) × RoundRobinRouter)
    → p.0 ≡ return key
    → Inv p.1
    → Answered key p.1.next_index (route_key p)
unfolding route_key
route_key-Answered key (raise e, r) h v = absurd (cc)
route_key-Answered key (return k, r) h v =
    subst (λ x. Answered x r.next_index (rotate r k)) (return_inj k key h) (rotate-Answered k r v)

-- One call on a non-empty list, given that the caches are right.
route_request-Answered :
    (r : RoundRobinRouter) (e : EndpointInfo) (es : List EndpointInfo)
    → Inv r
    → Answered (key_of (e ∷ es)) r.next_index (route_request r (e ∷ es))
unfolding route_request
route_request-Answered r e es v =
    subst (λ t. Answered (key_of (e ∷ es)) t (route_key (endpoint_key r (e ∷ es))))
      (next_index-endpoint_key r (e ∷ es))
      (route_key-Answered (key_of (e ∷ es)) (endpoint_key r (e ∷ es)) (endpoint_key-sorted r e es v)
        (endpoint_key-Inv r (e ∷ es) v))

-- In a state whose caches are coherent and bounded, a call on a non-empty list returns the URL of
-- one of its endpoints, and keeps both caches coherent and within `_MAX_CACHE_SIZE`.
pub route_request-safe :
    (r : RoundRobinRouter) (e : EndpointInfo) (es : List EndpointInfo)
    → Inv r
    → (u : String) × ((route_request r (e ∷ es)).0 ≡ return u)
      × (contains (urls (e ∷ es)) u ≡ true)
      × Inv (route_request r (e ∷ es)).1
route_request-safe r e es v =
    let key : List String = key_of (e ∷ es) in
    let (answer, table, v') = route_request-Answered r e es v in
    let (u, p, q) = contains-pick key (Dict.get_or r.next_index key 0) (key_of-pos e es) in
    (u, answer ∙ p, sym (contains-key_of (e ∷ es) u) ∙ q, v')

-- In a state whose caches are coherent and bounded, the answer for a non-empty list does not
-- depend on the order in which the endpoints are listed, nor on repetitions.
pub route_request_order :
    (r : RoundRobinRouter) (e e' : EndpointInfo) (es es' : List EndpointInfo)
    → Inv r
    → SameSet (urls (e ∷ es)) (urls (e' ∷ es'))
    → (route_request r (e ∷ es)).0 ≡ (route_request r (e' ∷ es')).0
route_request_order r e e' es es' v same =
    (route_request-Answered r e es v).0
    ∙ ap (λ key. pick key (Dict.get_or r.next_index key 0))
        (sorted-dedup_unique (urls (e ∷ es)) (urls (e' ∷ es')) same)
    ∙ sym (route_request-Answered r e' es' v).0

-- `k` calls with the same endpoints.
unfoldable pub after_calls : ℕ → RoundRobinRouter → List EndpointInfo → RoundRobinRouter
after_calls zero r endpoints = r
after_calls (suc k) r endpoints = after_calls k (route_request r endpoints).1 endpoints

after_calls-index :
    (k : ℕ) (r : RoundRobinRouter) (e : EndpointInfo) (es : List EndpointInfo)
    → Inv r
    → (Dict.get_or (after_calls k r (e ∷ es)).next_index (key_of (e ∷ es)) 0
        ≡ Dict.get_or r.next_index (key_of (e ∷ es)) 0 + k)
      × Inv (after_calls k r (e ∷ es))
unfolding after_calls
after_calls-index zero r e es v = (omega arith, v)
after_calls-index (suc k) r e es v =
    let key : List String = key_of (e ∷ es) in
    let (answer, table, v') = route_request-Answered r e es v in
    let (rest, v'') = after_calls-index k (route_request r (e ∷ es)).1 e es v' in
    let first : Dict.get_or (route_request r (e ∷ es)).1.next_index key 0
        ≡ Dict.get_or r.next_index key 0 + 1 =
      ap (λ t. Dict.get_or t key 0) table ∙ get_or-advance r.next_index key in
    (omega (arith, rest, first), v'')

-- Fairness: while the endpoint set stays the same and is not empty, from any state whose caches
-- are coherent and bounded, each of its URLs is the answer of one of the next `n` calls, where `n`
-- is the number of distinct URLs.
pub route_request_covers :
    (r : RoundRobinRouter) (e : EndpointInfo) (es : List EndpointInfo) (u : String)
    → Inv r
    → contains (urls (e ∷ es)) u ≡ true
    → (i : ℕ) × (i < length (dedup (urls (e ∷ es))))
      × ((route_request (after_calls i r (e ∷ es)) (e ∷ es)).0 ≡ return u)
route_request_covers r e es u v h =
    let key : List String = key_of (e ∷ es) in
    let (i, l, p) =
      pick_covers key (Dict.get_or r.next_index key 0) u (contains-key_of (e ∷ es) u ∙ h) in
    let (index, v') = after_calls-index i r e es v in
    (
      i,
      omega (arith, l, length-sort_by str_leb (dedup (urls (e ∷ es)))),
      (route_request-Answered (after_calls i r (e ∷ es)) e es v').0 ∙ ap (pick key) index ∙ p,
    )
