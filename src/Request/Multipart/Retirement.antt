-- ===== src/Request/Multipart/Retirement.antt =====
-- A form that is passed on is retired from the statistics, unless its stream never starts.
use production_stack.Base.Names.{
  ℕ, ◌+◌, String, ◌≡◌, refl, ap, ◌∙◌, subst, Bool, true, false, Option, none, some,
}
use production_stack.Base.Tests.{if◌then◌else◌}
use production_stack.Base.Eq.{◌==◌, nat_eq, string_eq}
use production_stack.Base.Dict
use production_stack.Base.Dict.{Dict}
use production_stack.Stats.Monitor.{Monitor, ActiveRequest, prefill, on_new_request}
use production_stack.Stats.Monitor.Invariant.{Inv, on_new_request-Inv}
use production_stack.Stats.Monitor.Lifecycle.{in_flight}
use production_stack.Request.Process.{Terminal, Clock}
use production_stack.Request.Process.Retirement.{
  is_complete, new, get-new, in_flight-new, Underway, response-Underway, retired,
}
use production_stack.Request.Multipart.{
  cancelled, client_error, other_exception, read, not_json, interrupted, unstarted, ran, no_answer,
  streamed, whole, response, stream_response, Exchange, Reply, terminal_of, reply_of, responds,
  first_response, hook_reply, ended, proxy_exchange,
}

first_response-Underway :
    (m : Monitor) (h t : ℕ) (r : ActiveRequest) (b : Bool)
    → Inv m
    → Dict.get m.active_requests h ≡ some r
    → r.stage ≡ prefill
    → Underway m h r.engine_url (first_response m h t b)
first_response-Underway m h t r true v p s = response-Underway m h t r v p s
first_response-Underway m h t r false v p s = (v, (r, p, refl), λ u. refl, λ u. refl)

-- The stream of the answer is dropped before its first chunk is asked for.
abbrev pub never_started : Exchange → Bool
never_started (streamed status unstarted) = true
never_started exchange = false

-- The answer has come to its end: the stream without an interruption, or the body, also one that is
-- no JSON although it should be, unless the second reading of it ends in anything but a ClientError.
abbrev pub came_to_end : Exchange → Bool
came_to_end (streamed status (ran chunks none)) = true
came_to_end (whole status read) = true
came_to_end (whole status (not_json none)) = true
came_to_end (whole status (not_json (some client_error))) = true
came_to_end exchange = false

-- The status of the engine, where its answer can be passed on.
abbrev pub engine_status : Exchange → Option ℕ
engine_status (streamed status s) = some status
engine_status (whole status read) = some status
engine_status exchange = none

-- The status of the engine, where the client gets its answer.
abbrev pub passed_on : Reply → Option ℕ
passed_on (response status) = some status
passed_on (stream_response status) = some status
passed_on reply = none

-- What an exchange leaves in the statistics: in flight as it was without a start, or settled.
abbrev pub Settled : Monitor → ℕ → String → Bool → Bool → String → Monitor → Type 0
Settled m h url true ended u m' =
    Inv m' × (in_flight m' u ≡ in_flight m u + (if url == u then 1 else 0))
Settled m h url false ended u m' =
    Inv m'
    × (Dict.get m'.active_requests h ≡ none)
    × (in_flight m' u ≡ in_flight m u)
    × (Dict.get_or m'.finished_requests u 0
        ≡ Dict.get_or m.finished_requests u 0 + (if ended then (if url == u then 1 else 0) else 0))

-- The calls of the statistics agree with that.
abbrev leaks : Option Terminal → Bool
leaks none = true
leaks (some t) = false

abbrev completes : Option Terminal → Bool
completes none = false
completes (some t) = is_complete t

terminal_of-agrees :
    (exchange : Exchange)
    → (leaks (terminal_of exchange) ≡ never_started exchange)
      × (completes (terminal_of exchange) ≡ came_to_end exchange)
      × (passed_on (reply_of exchange) ≡ engine_status exchange)
terminal_of-agrees (no_answer cancelled) = (refl, refl, refl)
terminal_of-agrees (no_answer client_error) = (refl, refl, refl)
terminal_of-agrees (no_answer other_exception) = (refl, refl, refl)
terminal_of-agrees (streamed n unstarted) = (refl, refl, refl)
terminal_of-agrees (streamed n (ran chunks none)) = (refl, refl, refl)
terminal_of-agrees (streamed n (ran chunks (some cancelled))) = (refl, refl, refl)
terminal_of-agrees (streamed n (ran chunks (some client_error))) = (refl, refl, refl)
terminal_of-agrees (streamed n (ran chunks (some other_exception))) = (refl, refl, refl)
terminal_of-agrees (whole n read) = (refl, refl, refl)
terminal_of-agrees (whole n (not_json none)) = (refl, refl, refl)
terminal_of-agrees (whole n (not_json (some cancelled))) = (refl, refl, refl)
terminal_of-agrees (whole n (not_json (some client_error))) = (refl, refl, refl)
terminal_of-agrees (whole n (not_json (some other_exception))) = (refl, refl, refl)
terminal_of-agrees (whole n (interrupted cancelled)) = (refl, refl, refl)
terminal_of-agrees (whole n (interrupted client_error)) = (refl, refl, refl)
terminal_of-agrees (whole n (interrupted other_exception)) = (refl, refl, refl)

module _ (m : Monitor) (url id u : String) (clock : Clock) (reply : Reply) (m2 : Monitor) where
  settled :
      (t : Option Terminal)
      → Underway
          (on_new_request m url id clock.start_time).1
          (on_new_request m url id clock.start_time).0
          url
          m2
      → let run = ended t reply m2 (on_new_request m url id clock.start_time).0 clock.end_time in
        Settled m
          (on_new_request m url id clock.start_time).0
          url
          (leaks t)
          (completes t)
          u
          run.monitor
        × (run.reply ≡ reply)
  settled none (v, r, flight, done) =
      ((v, flight u ∙ in_flight-new m url id clock.start_time u), refl)
  settled (some t) underway =
      let (inv, gone, flight, finished, returned) =
        retired m url id clock.start_time clock.end_time m2 t u underway in
      ((inv, gone, flight, finished), ap (hook_reply reply) returned)

-- Balance of a form that is passed on, in a monitor whose counters are exact. However the exchange
-- with the engine goes, the counters stay exact, and the client gets the engine's status just when
-- the answer is streamed or its body was read and an error of the router else. Unless the stream is
-- dropped before its first chunk is asked for, the handle of the request is gone, every engine has as
-- many requests in flight as before, and its engine has one more finished request just when the
-- answer came to its end. A stream that never starts leaves one more request in flight on its engine.
pub proxy_exchange_balanced :
    (m : Monitor) (url id : String) (clock : Clock) (exchange : Exchange) (u : String)
    → Inv m
    → let run = proxy_exchange m url id clock exchange in
      Settled m m.next_handle url (never_started exchange) (came_to_end exchange) u run.monitor
      × (passed_on run.reply ≡ engine_status exchange)
unfolding proxy_exchange on_new_request
proxy_exchange_balanced m url id clock exchange u v =
    let (leaked, ended_, status) = terminal_of-agrees exchange in
    let (balance, same) = settled m url id u clock (reply_of exchange) _ (terminal_of exchange) (
      first_response-Underway (on_new_request m url id clock.start_time).1 m.next_handle
        clock.response_time (new m url id clock.start_time) (responds exchange)
        (on_new_request-Inv m url id clock.start_time v) (get-new m url id clock.start_time)
        refl) in
    (
      subst
          (λ b.
            Settled m m.next_handle url b (came_to_end exchange) u
              (proxy_exchange m url id clock exchange).monitor)
          leaked
          (subst
            (λ c.
              Settled m m.next_handle url (leaks (terminal_of exchange)) c u
                (proxy_exchange m url id clock exchange).monitor)
            ended_ balance),
      ap passed_on same ∙ status,
    )
