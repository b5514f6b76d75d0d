-- ===== src/Examples/Sessions.antt =====
-- Examples on the session policy and its hash ring.
use production_stack.Base.Names.{String, ◌≡◌, refl, true, some, List, [], ◌∷◌, arith}
use production_stack.Base.Eq.{string_eq, contains}
use production_stack.Base.Lists.{dedup}
use production_stack.Base.Json.{end, str}
use production_stack.Endpoint.{EndpointInfo, urls}
use production_stack.Routing.HashRing.{update_hash_ring}
use production_stack.Routing.Session.{
  Headers, extract_session_id, route_request, route_request-mem, route_request_sticky,
}
use production_stack.Examples.Data.{engine, whole, latest_node}

abbrev engines : List EndpointInfo
engines = engine "a" ∷ engine "b" ∷ []

-- The one session that there is, in every header.
abbrev headers : Headers
headers name = some "s1"

route_request-mem_example :
    (u : String) × ((route_request whole latest_node
        (some "x-user")
        ("c" ∷ [])
        engines
        []
        headers
        end).0
      ≡ some u)
    × (contains (urls engines) u ≡ true)
    × ((a : String)
        → contains
            (route_request whole latest_node (some "x-user") ("c" ∷ []) engines [] headers end).1
            a
          ≡ contains (urls engines) a)
route_request-mem_example =
    route_request-mem whole latest_node (some "x-user") ("c" ∷ []) (engine "a") (engine "b" ∷ []) []
      headers end

abbrev left : List EndpointInfo
left = engine "b" ∷ []

shrinks : (a : String) → contains (urls left) a ≡ true → contains (urls engines) a ≡ true
unfolding contains
shrinks a h = ground (arith, h)

left-b : contains (urls left) "b" ≡ true
unfolding contains
left-b = refl

session : extract_session_id (some "x-user") headers end ≡ some (str "s1")
unfolding extract_session_id
session = refl

first_choice :
    (route_request whole latest_node (some "x-user") [] engines [] headers end).0 ≡ some "b"
unfolding route_request extract_session_id update_hash_ring contains dedup
first_choice = refl

route_request_sticky_example :
    (route_request whole latest_node
      (some "x-user")
      (route_request whole latest_node (some "x-user") [] engines [] headers end).1
      left
      []
      headers
      end).0
    ≡ some "b"
route_request_sticky_example =
    route_request_sticky whole latest_node (some "x-user") [] engines left [] [] headers headers end
      end (str "s1") "b" session session shrinks left-b first_choice
