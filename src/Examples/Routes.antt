-- ===== src/Examples/Routes.antt =====
-- Examples on the routes that follow the caches of the engines, and on the making of routers.
use production_stack.Base.Names.{
  ℕ, ◌*◌, ◌≤◌, String, ◌≡◌, refl, true, none, some, List, [], ◌∷◌, ◌++◌, arith,
}
use production_stack.Base.Eq.{string_eq, contains}
use production_stack.Base.Lists.{length, dedup}
use production_stack.Base.Json.{Fields, end, field, str, lookup, mentions}
use production_stack.Base.Outcome.{return}
use production_stack.Base.Dict
use production_stack.Base.Text.{after_first, before_first}
use production_stack.Endpoint.{EndpointInfo, urls}
use production_stack.Routing.Qps.{qps_routing}
use production_stack.Prefix.HashTrie.{
  init, insert, match_path, chunk_and_hash, longest_prefix_match, child, chunks, chunks_from,
}
use production_stack.Prefix.HashTrie.Match.{insert_all, hashed, holds}
use production_stack.Routing.PrefixAware.{PrefixAwareRouter, prompt, route_request, route_prompt}
use production_stack.Routing.PrefixAware.Affinity.{IsChoice, prompt_affinity}
use production_stack.Routing.Kvaware
use production_stack.Routing.Kvaware.{KvawareRouter, Controller, query_ip}
use production_stack.Routing.Kvaware.Live.{Placed, route_request-Placed}
use production_stack.Routing.LoadAware.Route
use production_stack.Routing.LoadAware.Route.{LoadAwareRouter, Lookup, Routed, route_request-Routed}
use production_stack.Routing.Factory.{
  class_of, router_classes, Registry, no_routers, with_router, round_robin_router,
  reconfigure_routing_logic,
}
use production_stack.Routing.Factory.Cleanup.{closes}
use production_stack.Routing.Factory.Single.{Reconfigured, reconfigure_routing_logic-Made}
use production_stack.Examples.Data.{engine, whole, latest_node, head?, head-mem}

abbrev total : List ℕ → ℕ
total = length

first_of : IsChoice head?
unfolding contains
first_of [] h = absurd (ground (arith, h))
first_of (x ∷ xs) h = head-mem (x ∷ xs) x (ground (arith, string_eq.beq_iff x x))

abbrev router : PrefixAwareRouter
router = record { hashtrie = init 2; prefix_min_match_length = 2 }

abbrev body : Fields
body = field "prompt" (str "ab") end

read : prompt body ≡ return (97 ∷ 98 ∷ [])
unfolding prompt mentions lookup
read = refl

abbrev engines : List EndpointInfo
engines = engine "a" ∷ engine "b" ∷ []

abbrev later : List EndpointInfo
later = engine "b" ∷ engine "a" ∷ []

long_enough : 2 ≤ length (chunk_and_hash total 2 (97 ∷ 98 ∷ [])) * 2
unfolding chunk_and_hash chunks chunks_from
long_enough = omega arith

nothing_recorded : router.hashtrie ≡ insert_all total (init 2) []
unfolding insert_all
nothing_recorded = refl

sent_to_a : (route_request whole total head? router engines [] body).0 ≡ return (some "a")
unfolding route_request route_prompt prompt mentions lookup longest_prefix_match match_path child
    init chunk_and_hash chunks chunks_from dedup contains qps_routing Dict.get insert
sent_to_a = refl

later-a : contains (urls later) "a" ≡ true
unfolding contains
later-a = refl

prompt_affinity_example :
    (u : String) × ((route_request whole total head?
        (route_request whole total head? router engines [] body).1
        later
        []
        body).0
      ≡ return (some u))
    × (contains (urls later) u ≡ true)
    × (holds
          (hashed total 2 ([] ++ (97 ∷ 98 ∷ [], "a") ∷ []))
          (chunk_and_hash total 2 (97 ∷ 98 ∷ []))
          u
        ≡ true)
prompt_affinity_example =
    prompt_affinity whole total head? 2 [] router engines later [] [] body body (97 ∷ 98 ∷ []) "a"
      first_of nothing_recorded read read long_enough sent_to_a later-a

-- Two engines behind addresses with ports; the controller knows one of them.
abbrev addressed : List EndpointInfo
addressed = engine "http://10.0.0.1:8000" ∷ engine "http://10.0.0.2:8000" ∷ []

abbrev controller : Controller
controller = record { layout_info = ("i1", 7) ∷ []; query_instance = λ ip. ip }

abbrev cached : KvawareRouter whole latest_node
cached = record { session_key = none; threshold = 2; instance_id_to_ip = []; hash_ring = [] }

first_address : query_ip "http://10.0.0.1:8000" ≡ some "10.0.0.1"
unfolding query_ip after_first before_first
first_address = refl

second_address : query_ip "http://10.0.0.2:8000" ≡ some "10.0.0.2"
unfolding query_ip after_first before_first
second_address = refl

route_request-Placed_example :
    Placed whole latest_node
      (urls addressed)
      (Kvaware.route_request whole latest_node cached controller 8 addressed [] (λ name. none) end)
route_request-Placed_example =
    route_request-Placed whole latest_node cached controller 8 (engine "http://10.0.0.1:8000")
      (engine "http://10.0.0.2:8000" ∷ []) [] (λ name. none) end
      (("10.0.0.1", first_address), (("10.0.0.2", second_address), tt)) tt

abbrev weighed : LoadAwareRouter whole latest_node
weighed = record { session_key = none; beta = 1; instance_id_to_ip = []; hash_ring = [] }

abbrev lookup_b : Lookup
lookup_b = record { layout_info = ("b", 7) ∷ []; instance_at = λ url. url; arrived = later }

route_request-Routed_example :
    Routed whole latest_node weighed lookup_b 8 engines []
      (Route.route_request whole latest_node weighed lookup_b 8 engines [] (λ name. none) end)
route_request-Routed_example =
    route_request-Routed whole latest_node weighed lookup_b 8 engines [] (λ name. none) end

abbrev registry : Registry
registry =
    with_router no_routers
      (record { class = round_robin_router; arguments = end; reroute_attempts = none })

abbrev kwargs : Fields
kwargs = field "session_key" (str "x-user") end

reconfigure_routing_logic-Made_example :
    Reconfigured
      (λ arguments. return tt)
      (λ router. return tt)
      registry
      kwargs
      (class_of "session")
      (closes (λ router. return tt) registry router_classes)
      (reconfigure_routing_logic
        (λ arguments. return tt)
        (λ router. return tt)
        registry
        "session"
        kwargs)
reconfigure_routing_logic-Made_example =
    reconfigure_routing_logic-Made (λ arguments. return tt) (λ router. return tt) registry "session"
      kwargs
