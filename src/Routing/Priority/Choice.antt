-- ===== src/Routing/Priority/Choice.antt =====
-- What the priority router answers, and what it writes into the request.
use production_stack.Base.Names.{◌<◌, String, ◌≡◌, sym, ap, ◌∙◌, true, some, List, ◌∷◌, arith}
use production_stack.Base.Eq.{string_eq, list_eq, contains}
use production_stack.Base.Lists.{length}
use production_stack.Base.Int.{ℤ, ltb_ℤ}
use production_stack.Base.Float.{Float}
use production_stack.Base.Sort.{sorted, contains-sort_by, length-sort_by}
use production_stack.Base.Text.{str_leb}
use production_stack.Base.Dict.{Dict}
use production_stack.Base.Json.{Fields, int, lookup, lookup-assign_self}
use production_stack.Base.Outcome.{return}
use production_stack.Endpoint.{EndpointInfo, urls}
use production_stack.Stats.Monitor.Report.{RequestStats}
use production_stack.Routing.Session.{Headers}
use production_stack.Routing.Best.{IsOrder, IsFirstBest, first_best-nonempty, IsFirstBest-mem}
use production_stack.Routing.Priority.{
  PriorityRouter, extract_priority, lighter, or_value_error, route_request,
}

module _ (float : Float) where
  open float use {F}

  lighter-IsOrder : (stats : Dict String (RequestStats F)) → IsOrder (lighter float stats)
  lighter-IsOrder stats = record {
    better_irrefl = λ a. ground arith;
    better_trans = λ a b c p q. ground (arith, p, q);
    better_cotrans = λ a b c p. ground (arith, p);
  }

  sorted-urls-pos :
      (e : EndpointInfo) (es : List EndpointInfo) → 0 < length (sorted (urls (e ∷ es)))
  sorted-urls-pos e es = omega (arith, length-sort_by str_leb (urls (e ∷ es)))

  module _ (r : PriorityRouter) (e : EndpointInfo) (es : List EndpointInfo)
      (stats : Dict String (RequestStats F)) (headers : Headers) (body : Fields) where
    abbrev priority : ℤ
    priority = extract_priority r headers body

    abbrev key : List String
    key = sorted (urls (e ∷ es))

    -- With at least one endpoint, a request that is more important than the threshold goes to the
    -- first, in the order of the URLs, of the engines with the fewest requests in flight, and the
    -- rotation stands still. Its body is sent on with the priority that was resolved from the
    -- header, the body or the default.
    pub urgent_request :
        ltb_ℤ priority r.priority_threshold ≡ true
        → (u : String) × ((route_request float r (e ∷ es) stats headers body).0 ≡ return u)
          × IsFirstBest (lighter float stats) u key
          × (contains (urls (e ∷ es)) u ≡ true)
          × ((route_request float r (e ∷ es) stats headers body).1.next_index ≡ r.next_index)
          × (lookup (route_request float r (e ∷ es) stats headers body).2 r.priority_field
              ≡ some (int priority))
    unfolding route_request
    urgent_request h =
        let (u, p, best) =
          first_best-nonempty (lighter float stats) (lighter-IsOrder stats) key
            (sorted-urls-pos e es) in
        (
          u,
          rw h (ap or_value_error p),
          best,
          sym (contains-sort_by str_leb (urls (e ∷ es)) u)
              ∙ IsFirstBest-mem (lighter float stats) u key best,
          rw h,
          rw h (lookup-assign_self body r.priority_field (int priority)),
        )
