-- ===== src/Request/Prefill.antt =====
-- `route_disaggregated_prefill_request` of src/vllm_router/services/request_service/request.py, with the
-- two calls that it makes: one to the prefill engine, which makes a single token, and one to the
-- decode engine, whose answer is the client's. A body that is no JSON object, and the client's
-- cancellation, are left out.
pub mod Phases
use production_stack.Base.Names.{ℕ, String, Bool, true, false, Option, none, some, List, [], ◌∷◌}
use production_stack.Base.Tests.{leb, if◌then◌else◌}
use production_stack.Base.Int.{pos}
use production_stack.Base.Json.{Json, Fields, bool, int, mentions, assign, without}
use production_stack.Base.Outcome.{Error, attribute_error}
use production_stack.Request.Orchestrated.{
  Reading, text, interrupted, Answer, answered, no_connection, broken, Engines, Sent,
  assign_present,
}

-- What the decode engine sends: its chunks up to the end, or up to an exception; or a status that
-- `raise_for_status` refuses; or nothing, where it cannot be reached.
pub data DecodeAnswer : Type 0 where
  chunks : ℕ → List String → Bool → DecodeAnswer
  unreachable : DecodeAnswer

abbrev pub DecodeEngines : Type 0
DecodeEngines = String → Fields → DecodeAnswer

-- The reply to the client. A stream has the status 200; an error in it is a last chunk with a code.
pub data Reply : Type 0 where
  prefiller_error : ℕ → Reply
  stream : List String → Option ℕ → Reply
  raised : Error → Reply

pub record Run : Type 0 where
  pub reply : Reply
  pub sent : List Sent

-- `app.state.prefill_client` and `app.state.decode_client`, by their base URLs, where they are set.
pub record Clients : Type 0 where
  pub prefill_client : Option String
  pub decode_client : Option String

-- The body that `send_request_to_prefiller` sends.
unfoldable pub prefiller_data : Fields → Fields
unfolding mentions
prefiller_data req_data =
    without
      (assign
        (without
          (assign_present (assign req_data "max_tokens" (int (pos 1))) "max_completion_tokens"
            (int (pos 1)))
          "min_tokens")
        "stream" (bool false))
      "stream_options"

-- The body that it is given, which the handler has changed already.
unfoldable pub prefill_request : Fields → Fields
unfolding prefiller_data
prefill_request request_json =
    prefiller_data
      (without (assign request_json "max_tokens" (int (pos 1))) "max_completion_tokens")

-- The status of a prefill that failed; nothing for one that did not. `raise_for_status` refuses a status
-- from 400 on. A body of another content type than JSON raises ContentTypeError, which is a
-- ClientResponseError with the status of the answer; a body that is no JSON text, or that is not
-- read to its end, raises another exception.
unfoldable pub prefill_failure : Answer → Option ℕ
prefill_failure no_connection = some 500
prefill_failure broken = some 500
prefill_failure (answered status interrupted) = if leb 400 status then some status else some 500
prefill_failure (answered status (text false v)) = some status
prefill_failure (answered status (text true none)) =
    if leb 400 status then some status else some 500
prefill_failure (answered status (text true (some v))) =
    if leb 400 status then some status else none

unfoldable pub decode_stream : DecodeAnswer → Reply
decode_stream unreachable = stream [] (some 500)
decode_stream (chunks status parts complete) =
    if leb 400 status
    then stream [] (some status)
    else if complete
    then stream parts none
    else stream parts (some 500)

-- The decode phase, with the body of the client; the log line before it needs the client.
unfoldable pub decode_phase : DecodeEngines → Option String → List Sent → Fields → Run
unfolding decode_stream
decode_phase decoders none sent request_json = record {
  reply = raised attribute_error;
  sent = sent;
}
decode_phase decoders (some url) sent request_json = record {
  reply = decode_stream (decoders url request_json);
  sent = record { url = url; body = request_json } ∷ sent;
}

unfoldable pub after_prefill : DecodeEngines → Clients → List Sent → Fields → Option ℕ → Run
unfolding decode_phase
after_prefill decoders clients sent request_json (some status) = record {
  reply = prefiller_error status;
  sent = sent;
}
after_prefill decoders clients sent request_json none =
    decode_phase decoders clients.decode_client sent request_json

-- Without a prefill client the attribute is missing, inside of the `try`. `sent` has the last request
-- first.
unfoldable pub prefill_phase : Engines → DecodeEngines → Clients → Fields → Option String → Run
unfolding prefill_failure after_prefill prefill_request
prefill_phase engines decoders clients request_json none = record {
  reply = prefiller_error 500;
  sent = [];
}
prefill_phase engines decoders clients request_json (some url) =
    after_prefill decoders clients (record { url = url; body = prefill_request request_json } ∷ [])
      request_json (prefill_failure (engines url (prefill_request request_json)))

unfoldable pub route_disaggregated_prefill_request :
    Engines → DecodeEngines → Clients → Fields → Run
unfolding prefill_phase
route_disaggregated_prefill_request engines decoders clients request_json =
    prefill_phase engines decoders clients request_json clients.prefill_client
