-- ===== src/Request/Multipart.antt =====
-- `proxy_multipart_request` of src/vllm_router/services/request_service/request.py: a form, audio for
-- instance, that is passed on to one engine, with its calls of the statistics. The monitor is the one
-- behind the report that the router is given. Tracing and headers are left out.
pub mod Retirement
use production_stack.Base.Names.{
  ℕ, String, Bool, true, false, not, ◌&&◌, Option, none, some, List, [], ◌∷◌,
}
use production_stack.Base.Tests.{if◌then◌else◌}
use production_stack.Base.Eq.{◌==◌, string_eq, contains}
use production_stack.Base.Lists.{filter, any}
use production_stack.Base.Outcome.{Outcome, return, raise, Error, other_error}
use production_stack.Endpoint.{EndpointInfo}
use production_stack.Stats.Monitor.{Monitor, on_new_request, on_request_response}
use production_stack.Request.Process.{Terminal, complete, fail, abort, Clock, terminal_hook}

-- What breaks into the exchange: the cancellation, a ClientError of aiohttp, or another exception.
pub data Interruption : Type 0 where
  cancelled client_error other_exception : Interruption

-- The body of an answer that is not streamed: read, with what its content type asks for; no JSON,
-- although it should be, with what happens to the second reading of it; or interrupted.
pub data Reading : Type 0 where
  read : Reading
  not_json : Option Interruption → Reading
  interrupted : Interruption → Reading

-- A stream of chunks up to its end or an interruption. The server may drop the response before it
-- asks for the first chunk: then the generator never starts.
pub data Streaming : Type 0 where
  unstarted : Streaming
  ran : List String → Option Interruption → Streaming

-- How the engine and the client behave: the call fails, or there is an answer with a status, which is
-- streamed or read as the form asked for.
pub data Exchange : Type 0 where
  no_answer : Interruption → Exchange
  streamed : ℕ → Streaming → Exchange
  whole : ℕ → Reading → Exchange

pub data Reply : Type 0 where
  -- an error of the router's own, with its status
  error_response : ℕ → Reply
  -- the engine's answer, with its status
  response stream_response : ℕ → Reply
  raised : Error → Reply

pub record Proxied : Type 0 where
  pub reply : Reply
  pub monitor : Monitor

abbrev pub interrupted_as : Interruption → Terminal
interrupted_as cancelled = abort
interrupted_as client_error = fail
interrupted_as other_exception = fail

-- A second reading that is interrupted, but for a ClientError, leaves the outcome as it was at first.
abbrev pub reading_as : Reading → Terminal
reading_as read = complete
reading_as (not_json none) = complete
reading_as (not_json (some client_error)) = complete
reading_as (not_json (some i)) = abort
reading_as (interrupted i) = interrupted_as i

-- The terminal outcome; none where the generator that would tell it never runs.
abbrev pub terminal_of : Exchange → Option Terminal
terminal_of (no_answer i) = some (interrupted_as i)
terminal_of (streamed status unstarted) = none
terminal_of (streamed status (ran chunks none)) = some complete
terminal_of (streamed status (ran chunks (some i))) = some (interrupted_as i)
terminal_of (whole status reading) = some (reading_as reading)

-- The answer to an exception, behind all the handlers.
abbrev pub answer_to : Interruption → Reply
answer_to cancelled = raised (other_error "CancelledError")
answer_to client_error = error_response 503
answer_to other_exception = error_response 500

-- The reply, for statistics that do not raise.
abbrev pub reply_of : Exchange → Reply
reply_of (no_answer i) = answer_to i
reply_of (streamed status s) = stream_response status
reply_of (whole status read) = response status
reply_of (whole status (not_json none)) = error_response 502
reply_of (whole status (not_json (some client_error))) = error_response 502
reply_of (whole status (not_json (some i))) = answer_to i
reply_of (whole status (interrupted i)) = answer_to i

-- The first chunk that is not empty is the first response of a stream; another body counts as one
-- as soon as its headers are there.
abbrev pub responds : Exchange → Bool
responds (no_answer i) = false
responds (streamed status unstarted) = false
responds (streamed status (ran chunks ending)) = any (λ c. not (c == "")) chunks
responds (whole status reading) = true

abbrev pub first_response : Monitor → ℕ → ℕ → Bool → Monitor
first_response m handle time true = on_request_response m handle time
first_response m handle time false = m

abbrev hook_reply : Reply → Outcome (Unit {0}) → Reply
hook_reply reply (return u) = reply
hook_reply reply (raise e) = error_response 500

abbrev pub ended : Option Terminal → Reply → Monitor → ℕ → ℕ → Proxied
ended none reply m handle time = record { reply = reply; monitor = m }
ended (some t) reply m handle time =
    let (outcome, m') = terminal_hook t m handle time in
    record { reply = hook_reply reply outcome; monitor = m' }

-- The exchange with the engine that was chosen.
unfoldable pub proxy_exchange : Monitor → String → String → Clock → Exchange → Proxied
proxy_exchange m chosen_url request_id clock exchange =
    let (handle, m1) = on_new_request m chosen_url request_id clock.start_time in
    ended (terminal_of exchange) (reply_of exchange)
      (first_response m1 handle clock.response_time (responds exchange)) handle clock.end_time

unfoldable pub chosen : Monitor → String → Clock → (String → Exchange) → Outcome String → Proxied
unfolding proxy_exchange
chosen m request_id clock engines (raise e) = record { reply = raised e; monitor = m }
chosen m request_id clock engines (return url) = proxy_exchange m url request_id clock (engines url)

-- [ep for ep in endpoints if model in ep.model_names and not ep.sleep]
unfoldable pub serving : String → List EndpointInfo → List EndpointInfo
serving model endpoints = filter (λ ep. contains ep.model_names model && not ep.sleep) endpoints

unfoldable pub among :
    Monitor
    → String
    → Clock
    → (String → Exchange)
    → (List EndpointInfo → Outcome String)
    → List EndpointInfo
    → Proxied
unfolding chosen
among m request_id clock engines route [] = record { reply = error_response 404; monitor = m }
among m request_id clock engines route (e ∷ es) = chosen m request_id clock engines (route (e ∷ es))

-- `route` is the routing policy, and `engines` how the exchange with each engine goes.
unfoldable pub proxy_multipart_request :
    Monitor
    → Option String
    → List EndpointInfo
    → String
    → Clock
    → (List EndpointInfo → Outcome String)
    → (String → Exchange)
    → Proxied
unfolding serving among
proxy_multipart_request m none endpoints request_id clock route engines = record {
  reply = error_response 400;
  monitor = m;
}
proxy_multipart_request m (some model) endpoints request_id clock route engines =
    if model == ""
    then record { reply = error_response 400; monitor = m }
    else among m request_id clock engines route (serving model endpoints)
