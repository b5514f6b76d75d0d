-- ===== src/Routing/Kvaware/Live.antt =====
-- The KV-aware route stays among the endpoints that are there.
use production_stack.Base.Names.{
  ℕ, String, ◌≡◌, refl, sym, ap, ◌∙◌, inl, inr, Bool, true, Option, some, List, [], ◌∷◌, arith,
}
use production_stack.Base.Tests.{ltb, Bool-cases, Option-cases}
use production_stack.Base.Eq.{string_eq, contains}
use production_stack.Base.Lists.{All, Distinct, is_empty, contains-filter}
use production_stack.Base.Float.{Float}
use production_stack.Base.Dict
use production_stack.Base.Dict.{Dict, Distinct-put, All-put, get-of-item, item-of-value}
use production_stack.Base.Json.{Fields}
use production_stack.Base.Outcome.{Outcome, return}
use production_stack.Endpoint.{EndpointInfo, urls}
use production_stack.Stats.Monitor.Report.{RequestStats}
use production_stack.Routing.Best.{first_best, IsOrder, first_best-nonempty, IsFirstBest-mem}
use production_stack.Routing.HashRing.{HashRing}
use production_stack.Routing.Session.{Headers, route_request-mem}
use production_stack.Routing.Kvaware.{
  Controller, query_ip, is_stale, query_all, live_instances, live_holders, best_holder,
  matched_instance, KvawareRouter, fallback, place, route_request,
}

-- The instance of a live URL, as the map has it.
abbrev Backed : List String → Dict String String → String × String → Type 0
Backed live map_ x = (Dict.get map_ x.1 ≡ some x.0) × (contains live x.0 ≡ true)

live_instances-Backed :
    (live : List String) (map_ inverted rest : Dict String String)
    → All (λ x. Dict.get map_ x.0 ≡ some x.1) rest
    → All (Backed live map_) inverted
    → All (Backed live map_) (live_instances live inverted rest)
unfolding live_instances
live_instances-Backed live map_ inverted [] h b = b
live_instances-Backed live map_ inverted ((holder, url) ∷ rest) h b =
    elim (Bool-cases (contains live url)) [
      | inl p ↦ rw p (
          live_instances-Backed live map_ (Dict.put inverted url holder) rest h.1
            (All-put (Backed live map_) inverted url holder b (h.0, p)))
      | inr p ↦ rw p (live_instances-Backed live map_ inverted rest h.1 b)
    ]

-- Which of two holders has the longer match.
abbrev longer : Dict String ℕ → String → String → Bool
longer layout a b = ltb (Dict.get_or layout b 0) (Dict.get_or layout a 0)

longer-IsOrder : (layout : Dict String ℕ) → IsOrder (longer layout)
longer-IsOrder layout = record {
  better_irrefl = λ a. ground arith;
  better_trans = λ a b c p q. ground (arith, p, q);
  better_cotrans = λ a b c p. ground (arith, p);
}

best_holder-mem :
    (layout : Dict String ℕ) (holders : List String) (holder : String)
    → best_holder layout holders ≡ some holder
    → contains holders holder ≡ true
unfolding first_best
best_holder-mem layout [] holder h = absurd (ground (arith, h))
best_holder-mem layout (x ∷ xs) holder h =
    let (a, p, best) =
      first_best-nonempty (longer layout) (longer-IsOrder layout) (x ∷ xs) (omega arith) in
    let same : a ≡ holder = ground (arith, p, h) in
    ap (contains (x ∷ xs)) (sym same) ∙ IsFirstBest-mem (longer layout) a (x ∷ xs) best

-- The matched instance runs at a live URL.
matched_instance-live :
    (live : List String) (map_ : Dict String String) (layout : Dict String ℕ) (tokens threshold : ℕ)
    (holder : String)
    → Distinct (Dict.keys map_)
    → matched_instance live map_ layout tokens threshold ≡ some holder
    → (u : String) × (Dict.get map_ holder ≡ some u) × (contains live u ≡ true)
unfolding matched_instance live_holders
matched_instance-live live map_ layout tokens threshold holder n h =
    elim (Option-cases (best_holder layout (live_holders live map_ layout))) [
      | inl p ↦ absurd (ground (arith, p, h))
      | inr (x, p) ↦
          let same : x ≡ holder = ground (arith, p, h) in
          let values : List String = Dict.values (live_instances live [] map_) in
          let listed : contains values holder ≡ true = ground (
            arith,
            ap (contains (live_holders live map_ layout)) same,
            best_holder-mem layout (live_holders live map_ layout) x p,
            contains-filter (contains values) (Dict.keys layout) holder,
          ) in
          let (u, backed) =
            item-of-value (Backed live map_) (live_instances live [] map_) holder
              (live_instances-Backed live map_ [] map_ (get-of-item map_ n) tt) listed in
          (u, backed.0, backed.1)
    ]

-- The address that the code cuts out of the URL of an endpoint is there.
abbrev pub Addressed : EndpointInfo → Type 0
Addressed e = (ip : String) × (query_ip e.url ≡ some ip)

query_all-Distinct :
    (query : String → String) (map_ : Dict String String) (es : List EndpointInfo)
    → All Addressed es
    → Distinct (Dict.keys map_)
    → (map' : Dict String String) × (query_all query map_ es ≡ (return tt, map'))
      × Distinct (Dict.keys map')
unfolding query_all
query_all-Distinct query map_ [] a n = (map_, refl, n)
query_all-Distinct query map_ (e ∷ es) ((ip, p), a) n =
    let (map', q, n') =
      query_all-Distinct query (Dict.put map_ (query ip) e.url) es a
        (Distinct-put map_ (query ip) e.url n) in
    (map', rw (p, query_all) q, n')

module _ (float : Float) (ring : HashRing) where
  open float use {F}

  -- The answer is one of the URLs, and no instance stands twice in the map.
  abbrev pub Placed : List String → Outcome (Option String) × KvawareRouter float ring → Type 0
  Placed live (answer, r) =
      ((u : String) × (answer ≡ return (some u)) × (contains live u ≡ true))
      × Distinct (Dict.keys r.instance_id_to_ip)

  pub fallback-Placed :
      (r : KvawareRouter float ring) (e : EndpointInfo) (es : List EndpointInfo)
      (stats : Dict String (RequestStats F)) (headers : Headers) (body : Fields)
      → Distinct (Dict.keys r.instance_id_to_ip)
      → Placed (urls (e ∷ es)) (fallback float ring r (e ∷ es) stats headers body)
  fallback-Placed r e es stats headers body n =
      let (u, p, c, _) =
        route_request-mem float ring r.session_key r.hash_ring e es stats headers body in
      ((u, ap return p, c), n)

  place-Placed :
      (r : KvawareRouter float ring) (controller : Controller) (tokens : ℕ) (e : EndpointInfo)
      (es : List EndpointInfo) (stats : Dict String (RequestStats F)) (headers : Headers)
      (body : Fields)
      → Distinct (Dict.keys r.instance_id_to_ip)
      → Placed (urls (e ∷ es)) (place float ring r controller tokens (e ∷ es) stats headers body)
  unfolding place
  place-Placed r controller tokens e es stats headers body n =
      elim (Option-cases (
        matched_instance (urls (e ∷ es)) r.instance_id_to_ip controller.layout_info tokens
          r.threshold)) [
            | inl p ↦ rw (p, place) (fallback-Placed r e es stats headers body n)
            | inr (holder, p) ↦
                let (u, q, c) =
                  matched_instance-live (urls (e ∷ es)) r.instance_id_to_ip controller.layout_info
                    tokens r.threshold holder n p in
                rw (p, place) ((u, ap return q, c), n)
          ]

  -- Whatever the controller answers, also of instances that have gone, a request for at least one
  -- endpoint goes to one of them, where an address can be cut out of each of their URLs and no
  -- instance stands twice in the map of instances; and that stays so.
  pub route_request-Placed :
      (r : KvawareRouter float ring) (controller : Controller) (tokens : ℕ) (e : EndpointInfo)
      (es : List EndpointInfo) (stats : Dict String (RequestStats F)) (headers : Headers)
      (body : Fields)
      → All Addressed (e ∷ es)
      → Distinct (Dict.keys r.instance_id_to_ip)
      → Placed
          (urls (e ∷ es))
          (route_request float ring r controller tokens (e ∷ es) stats headers body)
  unfolding route_request
  route_request-Placed r controller tokens e es stats headers body a n =
      let (map', q, n') =
        query_all-Distinct controller.query_instance r.instance_id_to_ip (e ∷ es) a n in
      elim (Bool-cases (is_empty controller.layout_info)) [
        | inl p ↦ rw p (fallback-Placed r e es stats headers body n)
        | inr p ↦ elim (Bool-cases (is_stale r.instance_id_to_ip (e ∷ es) controller.layout_info)) [
          | inl s ↦
              rw (p, s, q)
                (place-Placed (record r { instance_id_to_ip = map' }) controller tokens e es stats
                  headers body n')
          | inr s ↦ rw (p, s) (place-Placed r controller tokens e es stats headers body n)
        ]
      ]
