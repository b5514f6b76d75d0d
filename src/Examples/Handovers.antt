-- ===== src/Examples/Handovers.antt =====
-- Examples on requests that two engines serve, one after the other.
use production_stack.Base.Names.{String, ◌≡◌, true, false, none, some, List, [], ◌∷◌}
use production_stack.Base.Tests.{if◌then◌else◌}
use production_stack.Base.Eq.{string_eq}
use production_stack.Base.Int.{pos}
use production_stack.Base.Json.{mentions, Fields, end, field, str, obj, int, bool, lookup}
use production_stack.Endpoint.{EndpointInfo}
use production_stack.Routing.Disaggregated.{OrchestratedRouter}
use production_stack.Request.Orchestrated.{
  Engines, answered, text, transfer_params, prefill_body, route_orchestrated,
}
use production_stack.Request.Orchestrated.Bodies.{rewritten, prefill_body_lem}
use production_stack.Request.Orchestrated.Steps.{Ended, orchestrated_request}
use production_stack.Request.Prefill.{
  Clients, DecodeEngines, chunks, route_disaggregated_prefill_request,
}
use production_stack.Request.Prefill.Phases.{Prefilled, route_disaggregated_prefill_request_lem}
use production_stack.Examples.Data.{engine}

abbrev labelled_engine : String → String → EndpointInfo
labelled_engine url label = record (engine url) { model_label = some label }

abbrev pair : List EndpointInfo
pair = labelled_engine "http://p:1" "prefill" ∷ labelled_engine "http://d:1" "decode" ∷ []

abbrev router : OrchestratedRouter
router = record {
  prefill_model_labels = "prefill" ∷ [];
  decode_model_labels = "decode" ∷ [];
  prefill_idx = 3;
  decode_idx = 5;
}

abbrev body : Fields
body = field "prompt" (str "ab") (field "max_tokens" (int (pos 20)) end)

-- Every engine answers with JSON, and with parameters for the transfer.
abbrev engines : Engines
engines url sent = answered 200 (
    text true
      (some (obj (field "kv_transfer_params" (obj (field "remote_port" (int (pos 1)) end)) end))))

orchestrated_request_example :
    Ended engines "/v1/completions" router pair body
      (route_orchestrated engines "/v1/completions" router pair body)
orchestrated_request_example = orchestrated_request engines "/v1/completions" router pair body

prefill_body_lem_example :
    (lookup (prefill_body body) "max_tokens" ≡ some (int (pos 1)))
    × (lookup (prefill_body body) "max_completion_tokens"
        ≡ (if mentions body "max_completion_tokens" then some (int (pos 1)) else none))
    × (lookup (prefill_body body) "stream" ≡ some (bool false))
    × (lookup (prefill_body body) "stream_options" ≡ none)
    × (lookup (prefill_body body) "kv_transfer_params" ≡ some transfer_params)
    × ((k : String) → rewritten k ≡ false → lookup (prefill_body body) k ≡ lookup body k)
prefill_body_lem_example = prefill_body_lem body

abbrev clients : Clients
clients = record { prefill_client = some "http://p:1"; decode_client = some "http://d:1" }

abbrev decoders : DecodeEngines
decoders url sent = chunks 200 ("one" ∷ "two" ∷ []) true

route_disaggregated_prefill_request_lem_example :
    Prefilled engines decoders clients body
      (some "http://p:1")
      (route_disaggregated_prefill_request engines decoders clients body)
route_disaggregated_prefill_request_lem_example =
    route_disaggregated_prefill_request_lem engines decoders clients body
