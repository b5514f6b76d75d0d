-- ===== src/Request/Process.antt =====
-- `process_request` of src/vllm_router/services/request_service/request.py: one exchange with a
-- backend, what it yields, and its calls of the statistics. Caches, callbacks, token counters and
-- tracing are left out; what they raise after the body counts as an interruption of it.
pub mod Retirement
use production_stack.Base.Names.{
  ℕ, String, Bool, true, false, Option, none, some, List, [], ◌∷◌, ◌++◌, map,
}
use production_stack.Base.Tests.{if◌then◌else◌}
use production_stack.Base.Outcome.{Outcome, return, raise, Error, http_exception, other_error}
use production_stack.Stats.Monitor.{
  Monitor, on_new_request, on_request_response, on_request_complete, on_request_fail,
  on_request_abort,
}

-- What breaks into an exchange: a cancellation or the close of the generator, with the entry
-- deadline past or not, a TimeoutError, or another exception.
pub data Interruption : Type 0 where
  cancelled : Bool → Interruption
  timed_out : Interruption
  failed : String → Interruption

-- How a backend and the client behave: an interruption before the headers, or headers, whether they
-- announce a stream of events, the chunks of the body, and an interruption of the body if there is one.
pub data Exchange : Type 0 where
  no_headers : Interruption → Exchange
  answered : ℕ → Bool → List String → Option Interruption → Exchange

-- What the generator yields.
pub data Frame : Type 0 where
  head : ℕ → Frame
  chunk : String → Frame
  error_frame done_frame : Frame

-- terminal_outcome
pub data Terminal : Type 0 where
  complete fail abort : Terminal

-- The times of the three calls of the statistics.
pub record Clock : Type 0 where
  pub start_time : ℕ
  pub response_time : ℕ
  pub end_time : ℕ

pub record Processed : Type 0 where
  pub frames : List Frame
  pub outcome : Outcome (Unit {0})
  pub monitor : Monitor

abbrev pub interrupted_as : Interruption → Terminal
interrupted_as (cancelled true) = fail
interrupted_as (cancelled false) = abort
interrupted_as timed_out = fail
interrupted_as (failed e) = fail

abbrev pub ended_as : Option Interruption → Terminal
ended_as none = complete
ended_as (some i) = interrupted_as i

abbrev pub terminal_of : Exchange → Terminal
terminal_of (no_headers i) = interrupted_as i
terminal_of (answered status events chunks ending) = ended_as ending

abbrev pub exception_of : Interruption → Outcome (Unit {0})
exception_of (cancelled expired) = raise (other_error "CancelledError")
exception_of timed_out = raise (other_error "TimeoutError")
exception_of (failed e) = raise (other_error e)

-- The end of a body: a stalled stream of events ends with an error frame and without an exception.
abbrev pub ending_of : Bool → Option Interruption → List Frame × Outcome (Unit {0})
ending_of events none = ([], return tt)
ending_of true (some timed_out) = (error_frame ∷ done_frame ∷ [], return tt)
ending_of events (some i) = ([], exception_of i)

abbrev pub yields : Exchange → List Frame × Outcome (Unit {0})
yields (no_headers i) = ([], exception_of i)
yields (answered status events chunks ending) =
    let (frames, outcome) = ending_of events ending in
    (head status ∷ (map chunk chunks ++ frames), outcome)

-- The first chunk is the first response.
abbrev pub first_response : Monitor → ℕ → ℕ → Exchange → Monitor
first_response m handle time (answered status events (c ∷ chunks) ending) =
    on_request_response m handle time
first_response m handle time _ = m

-- The `finally` block: the hook of the terminal outcome.
abbrev pub terminal_hook : Terminal → Monitor → ℕ → ℕ → Outcome (Unit {0}) × Monitor
terminal_hook complete = on_request_complete
terminal_hook fail = on_request_fail
terminal_hook abort = on_request_abort

-- An exception of the `finally` block takes the place of any other.
abbrev pub finally : Outcome (Unit {0}) → Outcome (Unit {0}) → Outcome (Unit {0})
finally outcome (return u) = outcome
finally outcome (raise e) = raise e

-- The body of the request is JSON or not; `exchange` is what follows when it is sent.
unfoldable pub process_request : Monitor → Bool → String → String → Clock → Exchange → Processed
process_request m false backend_url request_id clock exchange = record {
  frames = [];
  outcome = raise (http_exception 400 "Request body is not JSON parsable.");
  monitor = m;
}
process_request m true backend_url request_id clock exchange =
    let (handle, m1) = on_new_request m backend_url request_id clock.start_time in
    let m2 = first_response m1 handle clock.response_time exchange in
    let (ended, m3) = terminal_hook (terminal_of exchange) m2 handle clock.end_time in
    let (frames, outcome) = yields exchange in
    record { frames = frames; outcome = finally outcome ended; monitor = m3 }
