-- ===== src/Routing/Disaggregated.antt =====
-- `DisaggregatedPrefillRouter` and `DisaggregatedPrefillOrchestratedRouter` of
-- src/vllm_router/routers/routing_logic.py: prefill and decode run on engines of different
-- labels. The label arguments are lists, as their signatures say.
pub mod Turns
use production_stack.Base.Names.{
  ℕ, ◌+◌, String, Bool, true, false, ◌≡◌, Option, none, some, List, [], ◌∷◌,
}
use production_stack.Base.Tests.{if◌then◌else◌}
use production_stack.Base.Eq.{string_eq, contains}
use production_stack.Base.Lists.{filter, is_empty}
use production_stack.Base.Sort.{sort_by}
use production_stack.Base.Json.{Json, Fields, lookup, equals_one}
use production_stack.Base.Outcome.{Outcome, return, raise, value_error, index_error, http_exception}
use production_stack.Endpoint.{EndpointInfo, url_leb}
use production_stack.Routing.Rotation.{pick}

-- label in labels
abbrev pub label_in : List String → Option String → Bool
label_in labels none = false
label_in labels (some label) = contains labels label

-- [e for e in endpoints if e.model_label in labels]
unfoldable pub with_label : List String → List EndpointInfo → List EndpointInfo
with_label labels endpoints = filter (λ e. label_in labels e.model_label) endpoints

-- endpoints[0].url
abbrev pub first_url : List EndpointInfo → Outcome String
first_url [] = raise index_error
first_url (e ∷ es) = return e.url

pub record DisaggregatedPrefillRouter : Type 0 where
  pub prefill_model_labels : List String
  pub decode_model_labels : List String

-- request_json.get("max_tokens", 0) == 1
abbrev pub is_prefill : Fields → Bool
is_prefill request_json = elim (lookup request_json "max_tokens") [
  | none ↦ false
  | some v ↦ equals_one v
]

unfoldable pub route_request :
    DisaggregatedPrefillRouter → List EndpointInfo → Fields → Outcome String
unfolding with_label lookup
route_request r endpoints request_json =
    if is_prefill request_json
    then first_url (with_label r.prefill_model_labels endpoints)
    else first_url (with_label r.decode_model_labels endpoints)

pub record OrchestratedRouter : Type 0 where
  pub prefill_model_labels : List String
  pub decode_model_labels : List String
  pub prefill_idx : ℕ
  pub decode_idx : ℕ

abbrev or_no_labels : Option (List String) → List String
or_no_labels none = []
or_no_labels (some labels) = labels

unfoldable pub init : Option (List String) → Option (List String) → OrchestratedRouter
init prefill_model_labels decode_model_labels = record {
  prefill_model_labels = or_no_labels prefill_model_labels;
  decode_model_labels = or_no_labels decode_model_labels;
  prefill_idx = 0;
  decode_idx = 0;
}

-- Both lists, or the exception for the first that is empty.
abbrev pub both_found :
    List EndpointInfo → List EndpointInfo → Outcome (List EndpointInfo × List EndpointInfo)
both_found [] decoders =
    raise (http_exception 503 "PREFILL_SERVICE_UNAVAILABLE: No prefill endpoints discovered")
both_found (p ∷ ps) [] =
    raise (http_exception 503 "DECODE_SERVICE_UNAVAILABLE: No decode endpoints discovered")
both_found (p ∷ ps) (d ∷ ds) = return (p ∷ ps, d ∷ ds)

-- _find_endpoints
unfoldable pub find_endpoints :
    OrchestratedRouter → List EndpointInfo → Outcome (List EndpointInfo × List EndpointInfo)
unfolding with_label
find_endpoints r endpoints =
    both_found (with_label r.prefill_model_labels endpoints)
      (with_label r.decode_model_labels endpoints)

-- sorted(endpoints, key=url)[idx % len]
abbrev pub take_turn : List EndpointInfo → ℕ → Outcome EndpointInfo
take_turn [] idx = raise value_error
take_turn (e ∷ es) idx = pick (sort_by url_leb (e ∷ es)) idx

unfoldable pub select_prefill_endpoint :
    OrchestratedRouter → List EndpointInfo → Outcome EndpointInfo × OrchestratedRouter
select_prefill_endpoint r [] = (raise value_error, r)
select_prefill_endpoint r (e ∷ es) =
    (take_turn (e ∷ es) r.prefill_idx, record r { prefill_idx = r.prefill_idx + 1 })

unfoldable pub select_decode_endpoint :
    OrchestratedRouter → List EndpointInfo → Outcome EndpointInfo × OrchestratedRouter
select_decode_endpoint r [] = (raise value_error, r)
select_decode_endpoint r (e ∷ es) =
    (take_turn (e ∷ es) r.decode_idx, record r { decode_idx = r.decode_idx + 1 })

-- `route_request` of the orchestrated router, a placeholder.
unfoldable pub route_placeholder : OrchestratedRouter → List EndpointInfo → Outcome String
unfolding find_endpoints
route_placeholder r endpoints = elim (find_endpoints r endpoints) [
  | return found ↦ first_url found.0
  | raise e ↦ raise e
]
