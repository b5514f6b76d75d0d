-- ===== src/Request/Orchestrated.antt =====
-- `route_orchestrated_disaggregated_request` of
-- src/vllm_router/services/request_service/request.py: a request to a prefill engine, and with what it
-- answers a second one to a decode engine. A body that is no JSON object, and the client's
-- cancellation, are left out.
pub mod Bodies
pub mod Steps
use production_stack.Base.Names.{
  ℕ, String, Bool, true, false, ◌&&◌, Option, none, some, List, [], ◌∷◌,
}
use production_stack.Base.Tests.{nat_beq, if◌then◌else◌}
use production_stack.Base.Int.{pos}
use production_stack.Base.Json.{
  Json, Fields, null, bool, int, str, obj, end, field, lookup, mentions, assign, without, truthy,
}
use production_stack.Base.Outcome.{Outcome, return, raise, Error}
use production_stack.Base.Text.{after_first, before_first, str_append}
use production_stack.Endpoint.{EndpointInfo}
use production_stack.Routing.Disaggregated.{
  OrchestratedRouter, find_endpoints, select_prefill_endpoint, select_decode_endpoint,
}

-- The body of an answer: whether its content type is JSON and the JSON value that its text is, if it
-- is one, or a ClientError of aiohttp while it is read. An empty text counts as null, since `json()`
-- gives None for it.
pub data Reading : Type 0 where
  text : Bool → Option Json → Reading
  interrupted : Reading

-- How a call of an engine ends: an answer with its status, or one of the two kinds of exception.
pub data Answer : Type 0 where
  answered : ℕ → Reading → Answer
  no_connection broken : Answer

-- The answer to a body sent to a URL.
abbrev pub Engines : Type 0
Engines = String → Fields → Answer

pub data Reply : Type 0 where
  error_response : ℕ → Reply
  -- the answer of the decode engine, chunk by chunk or as one JSON value
  streamed : Reply
  complete : Json → Reply
  raised : Error → Reply

-- A request that the router has sent.
pub record Sent : Type 0 where
  pub url : String
  pub body : Fields

pub record Run : Type 0 where
  pub reply : Reply
  pub sent : List Sent
  pub router : OrchestratedRouter

abbrev pub transfer_params : Json
transfer_params = obj (
    field "do_remote_decode" (bool true) (
      field "do_remote_prefill" (bool false) (
        field "remote_engine_id" null (
          field "remote_block_ids" null
            (field "remote_host" null (field "remote_port" null end))))))

-- d[k] = v if k in d
abbrev pub assign_present : Fields → String → Json → Fields
assign_present d k v = if mentions d k then assign d k v else d

unfoldable pub prefill_body : Fields → Fields
unfolding mentions
prefill_body request_json =
    without
      (assign
        (assign
          (assign_present (assign request_json "max_tokens" (int (pos 1))) "max_completion_tokens"
            (int (pos 1)))
          "kv_transfer_params" transfer_params)
        "stream" (bool false))
      "stream_options"

-- prefill_url.split("://")[1].split(":")[0]
unfoldable pub remote_host : String → Option String
remote_host prefill_url = elim (after_first "://" prefill_url) [
  | none ↦ none
  | some rest ↦ some (before_first ":" (before_first "://" rest))
]

-- The body for the decode engine from a true value of `kv_transfer_params`: what is no object takes
-- no assignment.
abbrev pub hand_over : Fields → String → Json → Option Fields
hand_over request_json prefill_url (obj params) = elim (remote_host prefill_url) [
  | none ↦ none
  | some host ↦
      some (assign request_json "kv_transfer_params" (obj (assign params "remote_host" (str host))))
]
hand_over request_json prefill_url _ = none

abbrev pub or_false : Option Json → Json
or_false none = bool false
or_false (some v) = v

-- The body for the decode engine from what the prefill engine answered; nothing where that is no
-- object, or the transfer parameters are of no use.
unfoldable pub decode_body : Fields → String → Json → Option Fields
decode_body request_json prefill_url (obj prefill_data) =
    let params = or_false (lookup prefill_data "kv_transfer_params") in
    if truthy params then hand_over request_json prefill_url params else some request_json
decode_body request_json prefill_url _ = none

-- request_json.get("stream", False), as a truth value
abbrev pub is_streaming : Fields → Bool
is_streaming request_json = truthy (or_false (lookup request_json "stream"))

-- json.loads of a body that was read, whatever its content type.
abbrev pub loaded : Option Json → Reply
loaded none = error_response 500
loaded (some v) = complete v

-- What the client gets from the decode engine. A stream starts before the body is read.
abbrev pub decode_reply : Bool → Answer → Reply
decode_reply streaming no_connection = error_response 503
decode_reply streaming broken = error_response 500
decode_reply streaming (answered status interrupted) =
    if nat_beq status 200 && streaming then streamed else error_response 503
decode_reply streaming (answered status (text is_json v)) =
    if nat_beq status 200 then (if streaming then streamed else loaded v) else error_response status

module _ (engines : Engines) (path : String) where
  unfoldable pub send_decode :
      OrchestratedRouter → List Sent → Fields → String → Option Fields → Run
  send_decode router sent request_json decode_url none = record {
    reply = error_response 500;
    sent = sent;
    router = router;
  }
  send_decode router sent request_json decode_url (some body) = record {
    reply = decode_reply (is_streaming request_json) (engines (str_append decode_url path) body);
    sent = record { url = decode_url; body = body } ∷ sent;
    router = router;
  }

  -- The prefill engine's answer 200, with its content type and its JSON value.
  unfoldable pub with_data :
      OrchestratedRouter → List Sent → Fields → String → String → Bool → Option Json → Run
  unfolding send_decode decode_body
  with_data router sent request_json prefill_url decode_url false v = record {
    reply = error_response 503;
    sent = sent;
    router = router;
  }
  with_data router sent request_json prefill_url decode_url true none = record {
    reply = error_response 500;
    sent = sent;
    router = router;
  }
  with_data router sent request_json prefill_url decode_url true (some v) =
      send_decode router sent request_json decode_url (decode_body request_json prefill_url v)

  -- After the answer of the prefill engine.
  unfoldable pub after_prefill :
      OrchestratedRouter → List Sent → Fields → String → String → Answer → Run
  unfolding with_data
  after_prefill router sent request_json prefill_url decode_url no_connection = record {
    reply = error_response 503;
    sent = sent;
    router = router;
  }
  after_prefill router sent request_json prefill_url decode_url broken = record {
    reply = error_response 500;
    sent = sent;
    router = router;
  }
  after_prefill router sent request_json prefill_url decode_url (answered status interrupted) =
      record { reply = error_response 503; sent = sent; router = router }
  after_prefill router sent request_json prefill_url decode_url (answered status (text is_json v)) =
      if nat_beq status 200
      then with_data router sent request_json prefill_url decode_url is_json v
      else record { reply = error_response status; sent = sent; router = router }

  -- The two requests, once both engines are chosen.
  unfoldable pub orchestrate : OrchestratedRouter → Fields → EndpointInfo → EndpointInfo → Run
  unfolding after_prefill
  orchestrate router request_json p d =
      let body = prefill_body request_json in
      after_prefill router (record { url = p.url; body = body } ∷ []) request_json p.url d.url
        (engines (str_append p.url path) body)

  abbrev stopped : OrchestratedRouter → Error → Run
  stopped router e = record { reply = raised e; sent = []; router = router }

  abbrev chosen :
      Outcome EndpointInfo × OrchestratedRouter → (EndpointInfo → OrchestratedRouter → Run) → Run
  chosen (return e, router) use_engine = use_engine e router
  chosen (raise x, router) use_engine = stopped router x

  unfoldable pub with_found :
      OrchestratedRouter → Fields → Outcome (List EndpointInfo × List EndpointInfo) → Run
  unfolding orchestrate
  with_found router request_json (raise x) = stopped router x
  with_found router request_json (return (ps, ds)) =
      chosen (select_prefill_endpoint router ps) (λ p router'.
        chosen (select_decode_endpoint router' ds)
          (λ d router''. orchestrate router'' request_json p d))

  unfoldable pub route_orchestrated : OrchestratedRouter → List EndpointInfo → Fields → Run
  unfolding with_found find_endpoints
  route_orchestrated router endpoints request_json =
      with_found router request_json (find_endpoints router endpoints)
