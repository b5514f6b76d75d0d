-- ===== src/Examples/Rotations.antt =====
-- Examples on the round-robin and the request-rate policies.
use production_stack.Base.Names.{ℕ, ◌<◌, String, ◌≡◌, refl, ◌⊎◌, true, List, [], ◌∷◌, some, arith}
use production_stack.Base.Eq.{string_eq, contains}
use production_stack.Base.Lists.{length, dedup}
use production_stack.Base.Outcome.{return}
use production_stack.Endpoint.{EndpointInfo, urls}
use production_stack.Routing.RoundRobin.{init, route_request}
use production_stack.Routing.RoundRobin.Cache.{Inv, init-Inv}
use production_stack.Routing.RoundRobin.Fairness.{
  after_calls, route_request-safe, route_request_order, route_request_covers,
}
use production_stack.Base.Sort.{SameSet}
use production_stack.Routing.Qps.{qps_routing, IsUnseen, IsLeast, qps_routing-IsLeast}
use production_stack.Examples.Data.{engine, whole}

abbrev engines : List EndpointInfo
engines = engine "a" ∷ engine "b" ∷ []

engines-b : contains (urls engines) "b" ≡ true
unfolding contains
engines-b = refl

route_request-safe_example :
    (u : String) × ((route_request init engines).0 ≡ return u)
    × (contains (urls engines) u ≡ true)
    × Inv (route_request init engines).1
route_request-safe_example = route_request-safe init (engine "a") (engine "b" ∷ []) init-Inv

swapped : SameSet (urls engines) (urls (engine "b" ∷ engine "a" ∷ []))
unfolding contains
swapped u = ground arith

route_request_order_example :
    (route_request init engines).0 ≡ (route_request init (engine "b" ∷ engine "a" ∷ [])).0
route_request_order_example =
    route_request_order init (engine "a") (engine "b") (engine "b" ∷ []) (engine "a" ∷ []) init-Inv
      swapped

route_request_covers_example :
    (i : ℕ) × (i < length (dedup (urls engines)))
    × ((route_request (after_calls i init engines) engines).0 ≡ return "b")
route_request_covers_example =
    route_request_covers init (engine "a") (engine "b" ∷ []) "b" init-Inv engines-b

qps_routing-IsLeast_example :
    (u : String) × (qps_routing whole engines [] ≡ some u)
    × (IsUnseen whole [] u engines ⊎ IsLeast whole [] u engines)
qps_routing-IsLeast_example = qps_routing-IsLeast whole [] (engine "a") (engine "b" ∷ [])
