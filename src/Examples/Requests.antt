-- ===== src/Examples/Requests.antt =====
-- Examples on the request service, with the round-robin policy and an engine that does not connect.
use production_stack.Base.Names.{
  ℕ, ◌+◌, ◌≤◌, ◌%◌, String, ◌≡◌, refl, true, false, inl, inr, not, ◌&&◌, none, some, List, [], ◌∷◌,
  arith,
}
use production_stack.Base.Tests.{if◌then◌else◌, Option-cases}
use production_stack.Base.Eq.{◌==◌, string_eq, list_eq, nat_eq, contains}
use production_stack.Base.Lists.{length, Distinct, is_empty, dedup, get_elem?}
use production_stack.Base.Sort.{sort_by}
use production_stack.Base.Dict
use production_stack.Endpoint.{EndpointInfo, urls}
use production_stack.Base.Outcome.{Outcome, return, raise}
use production_stack.Discovery.{Discovery, get_endpoint_info, has_ever_seen_model}
use production_stack.External
use production_stack.External.{is_external_model}
use production_stack.Routing.RoundRobin
use production_stack.Routing.Rotation.{pick}
use production_stack.Routing.RoundRobin.Cache.{init-Inv}
use production_stack.Request.Failover.{headers, connect_error, Backend, error_response, send}
use production_stack.Request.Failover.Attempts.{send-tried}
use production_stack.Request.Failover.Liveness.{goes_on, Answered, send-Answered}
use production_stack.Request.Admission.{
  object, Setup, resolve, candidates, request_endpoint, serves, route_general_request,
  tried_engines_serve,
}
use production_stack.Request.Admission.Errors.{
  has_status, refusing, refusing_attempt, refusing_choice, not_found_or_unavailable,
}
use production_stack.Request.Routers.{round_robin, round_robin_laws}
use production_stack.Stats.Monitor
use production_stack.Stats.Monitor.Invariant
use production_stack.Stats.Monitor.Lifecycle.{in_flight}
use production_stack.Request.Process.{Exchange, answered, timed_out, Clock, yields, process_request}
use production_stack.Request.Process.Retirement.{ran_to_end, process_request_balanced}
use production_stack.Request.Multipart
use production_stack.Request.Multipart.{client_error, streamed, ran, reply_of, proxy_exchange}
use production_stack.Request.Multipart.Retirement.{
  Settled, never_started, came_to_end, engine_status, passed_on, proxy_exchange_balanced,
}
use production_stack.Examples.Data.{engine}

abbrev engines : List EndpointInfo
engines = engine "a" ∷ engine "b" ∷ []

-- "b" answers and every other engine refuses the connection.
abbrev half_down : Backend
half_down k u = if u == "b" then headers 200 else connect_error

half_down-b : (k : ℕ) → (status : ℕ) × (half_down k "b" ≡ headers status)
half_down-b k = (200, refl)

half_down-goes_on : (k : ℕ) (u : String) → goes_on (half_down k u) ≡ true
half_down-goes_on k u = ground arith

engines-b : contains (urls engines) "b" ≡ true
unfolding contains
engines-b = refl

send-tried_example :
    Distinct
      (send round_robin half_down false 1 RoundRobin.init (engine "a") (engine "b" ∷ [])).tried
    × (length
          (send round_robin half_down false 1 RoundRobin.init (engine "a") (engine "b" ∷ [])).tried
        ≤ 1 + 1)
    × ((u : String)
        → contains
            (send round_robin half_down false 1 RoundRobin.init
              (engine "a")
              (engine "b" ∷ [])).tried
            u
          ≡ true
        → contains (urls engines) u ≡ true)
send-tried_example =
    send-tried round_robin round_robin_laws half_down false 1 RoundRobin.init (engine "a")
      (engine "b" ∷ []) init-Inv

send-Answered_example :
    Answered half_down engines
      (send round_robin half_down false 1 RoundRobin.init (engine "a") (engine "b" ∷ [])).reply
send-Answered_example =
    send-Answered round_robin round_robin_laws half_down false 1 RoundRobin.init (engine "a")
      (engine "b" ∷ []) "b" init-Inv engines-b half_down-b half_down-goes_on (omega arith)

abbrev setup : Setup
setup = record {
  aliases = ("chat", "llama") ∷ [];
  external_provider_registry = External.init;
  external_reply = λ model. error_response 500;
  reroutes = 1;
}

abbrev discovery : Discovery
discovery = record {
  available_engines = ("pod-b", engine "b") ∷ [];
  known_models = "llama" ∷ "gone" ∷ [];
}

tried-b :
    contains
      (route_general_request round_robin half_down setup RoundRobin.init discovery
        (record { body = object (some "chat"); id = none })).tried
      "b"
    ≡ true
unfolding route_general_request External.is_external_model External.init candidates send
    RoundRobin.route_request RoundRobin.init Dict.get Dict.has contains sort_by dedup
tried-b = refl

tried_engines_serve_example :
    serves (request_endpoint none) (resolve setup.aliases "chat") (get_endpoint_info discovery) "b"
    ≡ true
tried_engines_serve_example =
    tried_engines_serve round_robin round_robin_laws half_down setup RoundRobin.init discovery none
      "chat" "b" init-Inv tried-b

not_external :
    is_external_model setup.external_provider_registry (resolve setup.aliases "gone") ≡ false
unfolding is_external_model External.init Dict.has
not_external = refl

half_down_passes : (k : ℕ) (u : String) → refusing_attempt (half_down k u) ≡ false
half_down_passes k u = ground arith

picked : (key : List String) (idx : ℕ) → refusing_choice (pick key idx) ≡ false
unfolding pick
picked [] idx = refl
picked (x ∷ xs) idx = elim (Option-cases (get_elem? (x ∷ xs) (idx % length (x ∷ xs)))) [
  | inl p ↦ rw p refl
  | inr (a, p) ↦ rw p refl
]

keyed :
    (o : Outcome (List String) × RoundRobin.RoundRobinRouter)
    → elim o.0 [ return key ↦ false | raise e ↦ refusing e ] ≡ false
    → refusing_choice (RoundRobin.route_key o).0 ≡ false
unfolding RoundRobin.route_key RoundRobin.rotate
keyed (return key, r) h = picked key _
keyed (raise e, r) h = h

round_robin_passes :
    (s : round_robin.State) (e : EndpointInfo) (es : List EndpointInfo)
    → refusing_choice (round_robin.route s (e ∷ es)).0 ≡ false
unfolding RoundRobin.route_request
round_robin_passes s e es = keyed (RoundRobin.endpoint_key s (e ∷ es)) (ground arith)

not_found_or_unavailable_example :
    (has_status 404
        (route_general_request round_robin half_down setup RoundRobin.init discovery
          (record { body = object (some "gone"); id = none })).reply
      ≡ (is_empty (
            candidates
              (request_endpoint none)
              (resolve setup.aliases "gone")
              (get_endpoint_info discovery))
          && not (has_ever_seen_model discovery (resolve setup.aliases "gone"))))
    × (has_status 503
          (route_general_request round_robin half_down setup RoundRobin.init discovery
            (record { body = object (some "gone"); id = none })).reply
        ≡ (is_empty (
              candidates
                (request_endpoint none)
                (resolve setup.aliases "gone")
                (get_endpoint_info discovery))
            && has_ever_seen_model discovery (resolve setup.aliases "gone")))
not_found_or_unavailable_example =
    not_found_or_unavailable round_robin half_down half_down_passes round_robin_passes setup
      RoundRobin.init discovery none "gone" not_external

abbrev idle : Monitor.Monitor
idle = Monitor.init 60

-- A stream of events that stalls after one chunk.
abbrev stall : Exchange
stall = answered 200 true ("data" ∷ []) (some timed_out)

abbrev clock : Clock
clock = record { start_time = 1; response_time = 3; end_time = 9 }

process_request_balanced_example :
    Invariant.Inv (process_request idle true "a" "r1" clock stall).monitor
    × (Dict.get
          (process_request idle true "a" "r1" clock stall).monitor.active_requests
          idle.next_handle
        ≡ none)
    × (in_flight (process_request idle true "a" "r1" clock stall).monitor "a" ≡ in_flight idle "a")
    × (Dict.get_or (process_request idle true "a" "r1" clock stall).monitor.finished_requests "a" 0
        ≡ Dict.get_or idle.finished_requests "a" 0
          + (if ran_to_end stall then (if ◌==◌ {A = String} "a" "a" then 1 else 0) else 0))
    × ((process_request idle true "a" "r1" clock stall).outcome ≡ (yields stall).1)
process_request_balanced_example =
    process_request_balanced idle "a" "r1" clock stall "a" (Invariant.init-Inv 60)

-- A stream that breaks after its first chunk with a text in it.
abbrev broken_form : Multipart.Exchange
broken_form = streamed 200 (ran ("" ∷ "one" ∷ []) (some client_error))

proxy_exchange_balanced_example :
    Settled idle idle.next_handle "a"
      (never_started broken_form)
      (came_to_end broken_form)
      "a"
      (proxy_exchange idle "a" "r2" clock broken_form).monitor
    × (passed_on (proxy_exchange idle "a" "r2" clock broken_form).reply ≡ engine_status broken_form)
proxy_exchange_balanced_example =
    proxy_exchange_balanced idle "a" "r2" clock broken_form "a" (Invariant.init-Inv 60)
