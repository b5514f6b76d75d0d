-- ===== src/Examples/Priorities.antt =====
-- Examples on the priority policy: the default priority against two thresholds.
use production_stack.Base.Names.{ℕ, ◌<◌, String, ◌≡◌, refl, true, false, none, some, List, [], ◌∷◌}
use production_stack.Base.Eq.{string_eq, list_eq, contains}
use production_stack.Base.Int.{pos, negsuc, ltb_ℤ}
use production_stack.Base.Lists.{all, length}
use production_stack.Base.Sort.{sorted}
use production_stack.Base.Json.{end, field, int, lookup}
use production_stack.Base.Outcome.{return}
use production_stack.Base.PyInt.{int_of_json}
use production_stack.Endpoint.{EndpointInfo, urls}
use production_stack.Routing.Session.{Headers}
use production_stack.Routing.Best.{IsFirstBest}
use production_stack.Routing.Priority.{
  PriorityRouter, init, extract_priority, body_priority, lighter, route_request,
}
use production_stack.Routing.Priority.Choice.{urgent_request}
use production_stack.Routing.Priority.Turns.{
  is_urgent, Round, after_calls, after_rounds, ordinary_requests_cover,
}
use production_stack.Examples.Data.{engine, whole}

abbrev engines : List EndpointInfo
engines = engine "a" ∷ engine "b" ∷ []

abbrev no_headers : Headers
no_headers name = none

abbrev strict : PriorityRouter
strict = init "x-priority" "priority" (pos 0) (some (pos 1))

urgent : ltb_ℤ (extract_priority strict no_headers end) strict.priority_threshold ≡ true
unfolding init extract_priority body_priority lookup
urgent = refl

urgent_request_example :
    (u : String) × ((route_request whole strict engines [] no_headers end).0 ≡ return u)
    × IsFirstBest (lighter whole []) u (sorted (urls engines))
    × (contains (urls engines) u ≡ true)
    × ((route_request whole strict engines [] no_headers end).1.next_index ≡ strict.next_index)
    × (lookup (route_request whole strict engines [] no_headers end).2 strict.priority_field
        ≡ some (int (extract_priority strict no_headers end)))
urgent_request_example =
    urgent_request whole strict (engine "a") (engine "b" ∷ []) [] no_headers end urgent

-- The requests alternate: one of priority -1, below the threshold, and one of the default priority.
abbrev between : PriorityRouter
between = init "x-priority" "priority" (pos 0) (some (pos 0))

abbrev rounds : ℕ → Round whole
rounds k = record {
  before =
      record { stats = []; headers = no_headers; body = field "priority" (int (negsuc 0)) end }
      ∷ [];
  call = record { stats = []; headers = no_headers; body = end };
}

rounds-urgent : (k : ℕ) → all (is_urgent whole between) (rounds k).before ≡ true
unfolding init extract_priority body_priority lookup int_of_json
rounds-urgent k = refl

rounds-ordinary : (k : ℕ) → is_urgent whole between (rounds k).call ≡ false
unfolding init extract_priority body_priority lookup
rounds-ordinary k = refl

engines-b : contains (urls engines) "b" ≡ true
unfolding contains
engines-b = refl

ordinary_requests_cover_example :
    (i : ℕ) × (i < length (urls engines))
    × ((route_request whole
          (after_calls whole between
            (engine "a")
            (engine "b" ∷ [])
            (after_rounds whole between (engine "a") (engine "b" ∷ []) i rounds)
            (rounds i).before)
          engines
          (rounds i).call.stats
          (rounds i).call.headers
          (rounds i).call.body).0
        ≡ return "b")
ordinary_requests_cover_example =
    ordinary_requests_cover whole between (engine "a") (engine "b" ∷ []) rounds "b" rounds-urgent
      rounds-ordinary engines-b
