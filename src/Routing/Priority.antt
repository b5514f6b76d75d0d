-- ===== src/Routing/Priority.antt =====
-- `PriorityRouter` of src/vllm_router/routers/routing_logic.py.
pub mod Choice
pub mod Turns
use production_stack.Base.Names.{
  ℕ, ◌+◌, String, Bool, true, false, Option, none, some, List, [], ◌∷◌,
}
use production_stack.Base.Tests.{ltb, if◌then◌else◌}
use production_stack.Base.Eq.{◌==◌, string_eq, list_eq, contains}
use production_stack.Base.Int.{ℤ, ltb_ℤ}
use production_stack.Base.Float.{Float}
use production_stack.Base.Sort.{sorted}
use production_stack.Base.Dict
use production_stack.Base.Dict.{Dict}
use production_stack.Base.Json.{Json, Fields, int, lookup, not_null, assign}
use production_stack.Base.PyInt.{int_of_text, int_of_json}
use production_stack.Base.Outcome.{Outcome, return, raise, value_error}
use production_stack.Endpoint.{EndpointInfo, urls}
use production_stack.Stats.Monitor.Report.{RequestStats}
use production_stack.Routing.Session.{Headers}
use production_stack.Routing.Rotation.{pick}
use production_stack.Routing.Best.{first_best}

pub record PriorityRouter : Type 0 where
  pub priority_header : String
  pub priority_field : String
  pub priority_default : ℤ
  pub priority_threshold : ℤ
  pub next_index : Dict (List String) ℕ
  pub warned_scheduling_policy : Bool

unfoldable pub init : String → String → ℤ → Option ℤ → PriorityRouter
init header field default threshold = record {
  priority_header = header;
  priority_field = field;
  priority_default = default;
  priority_threshold = elim threshold [ none ↦ default | some t ↦ t ];
  next_index = [];
  warned_scheduling_policy = false;
}

abbrev or_default {ℓ} : {A : Type ℓ} → Option A → A → A
or_default none d = d
or_default (some a) d = a

-- The body field, where it is there and an integer, or else the default.
unfoldable pub body_priority : PriorityRouter → Fields → ℤ
body_priority r request_json = elim (not_null (lookup request_json r.priority_field)) [
  | none ↦ r.priority_default
  | some val ↦ or_default (int_of_json val) r.priority_default
]

unfoldable pub extract_priority : PriorityRouter → Headers → Fields → ℤ
unfolding body_priority
extract_priority r headers request_json = elim (headers r.priority_header) [
  | none ↦ body_priority r request_json
  | some val ↦ or_default (int_of_text val) (body_priority r request_json)
]

-- The result of `min`, which raises on an empty sequence
abbrev pub or_value_error : Option String → Outcome String
or_value_error none = raise value_error
or_value_error (some url) = return url

module _ (float : Float) where
  open float use {F}

  unfoldable pub engine_load : Dict String (RequestStats F) → String → ℕ
  engine_load request_stats url = elim (Dict.get request_stats url) [
    | none ↦ 0
    | some stat ↦ stat.in_prefill_requests + stat.in_decoding_requests
  ]

  -- Less loaded.
  abbrev pub lighter : Dict String (RequestStats F) → String → String → Bool
  lighter request_stats a b = ltb (engine_load request_stats a) (engine_load request_stats b)

  unfoldable pub route_request :
      PriorityRouter
      → List EndpointInfo
      → Dict String (RequestStats F)
      → Headers
      → Fields
      → Outcome String × PriorityRouter × Fields
  unfolding extract_priority engine_load
  route_request r [] request_stats headers request_json = (raise value_error, r, request_json)
  route_request r (e ∷ es) request_stats headers request_json =
      let r' : PriorityRouter = record r { warned_scheduling_policy = true } in
      let priority = extract_priority r headers request_json in
      let request_json' = assign request_json r.priority_field (int priority) in
      let endpoint_urls : List String = sorted (urls (e ∷ es)) in
      let idx = Dict.get_or r.next_index endpoint_urls 0 in
      if ltb_ℤ priority r.priority_threshold
      then (or_value_error (first_best (lighter request_stats) endpoint_urls), r', request_json')
      else (
        pick endpoint_urls idx,
        record r' { next_index = Dict.put r.next_index endpoint_urls (idx + 1) },
        request_json',
      )
