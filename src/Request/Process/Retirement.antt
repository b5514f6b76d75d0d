-- ===== src/Request/Process/Retirement.antt =====
-- Every exchange leaves the statistics balanced.
use production_stack.Base.Names.{
  ℕ, ◌+◌, String, ◌≡◌, refl, ap, ◌∙◌, Bool, true, false, none, some, [], ◌∷◌, arith,
}
use production_stack.Base.Tests.{if◌then◌else◌}
use production_stack.Base.Eq.{◌==◌, nat_eq, string_eq}
use production_stack.Base.Outcome.{Outcome, return}
use production_stack.Base.Dict
use production_stack.Base.Dict.{Dict, get-put, get-put_self}
use production_stack.Stats.Monitor.{
  Monitor, ActiveRequest, prefill, decoding, on_new_request, on_request_response,
  on_request_complete, on_request_fail, on_request_abort, finalize_request, start_decoding,
}
use production_stack.Stats.Monitor.Invariant.{Inv, on_new_request-Inv, get_or-bump}
use production_stack.Stats.Monitor.Finalize.{finalize_request-Inv, finalize_request-returns}
use production_stack.Stats.Monitor.Lifecycle.{
  in_flight, finalize_accounting, response_moves, response-eq-start_decoding, get-finalize_request,
  step-Inv, request_response,
}
use production_stack.Request.Process.{
  Exchange, no_headers, answered, cancelled, timed_out, failed, Terminal, complete, fail, abort,
  Clock, terminal_of, yields, first_response, terminal_hook, finally, process_request,
}

abbrev pub is_complete : Terminal → Bool
is_complete complete = true
is_complete _ = false

hook-eq :
    (t : Terminal) (m : Monitor) (h time : ℕ)
    → terminal_hook t m h time ≡ finalize_request m h time (is_complete t)
unfolding on_request_complete on_request_fail on_request_abort
hook-eq complete m h time = refl
hook-eq fail m h time = refl
hook-eq abort m h time = refl

module _ (m : Monitor) (url id : String) (t : ℕ) where
  abbrev pub new : ActiveRequest
  new = record {
    stage = prefill;
    engine_url = url;
    request_id = id;
    start_time = t;
    first_token_time = none;
  }

  pub get-new :
      Dict.get (on_new_request m url id t).1.active_requests (on_new_request m url id t).0
      ≡ some new
  unfolding on_new_request
  get-new = get-put_self m.active_requests m.next_handle new

  pub in_flight-new :
      (u : String)
      → in_flight (on_new_request m url id t).1 u ≡ in_flight m u + (if url == u then 1 else 0)
  unfolding on_new_request
  in_flight-new u = ground (arith, get_or-bump m.in_prefill_requests url u)

-- A monitor in which the handle is active on the engine, as balanced as before.
abbrev pub Underway : Monitor → ℕ → String → Monitor → Type 0
Underway m h url m' =
    Inv m'
    × ((r : ActiveRequest) × (Dict.get m'.active_requests h ≡ some r) × (r.engine_url ≡ url))
    × ((u : String) → in_flight m' u ≡ in_flight m u)
    × ((u : String) → Dict.get_or m'.finished_requests u 0 ≡ Dict.get_or m.finished_requests u 0)

pub response-Underway :
    (m : Monitor) (h t : ℕ) (r : ActiveRequest)
    → Inv m
    → Dict.get m.active_requests h ≡ some r
    → r.stage ≡ prefill
    → Underway m h r.engine_url (on_request_response m h t)
unfolding start_decoding
response-Underway m h t r v p s = (
  step-Inv m (request_response h t) v,
  rw (response-eq-start_decoding m h t r v p s) (
    record r { stage = decoding; first_token_time = some t },
    get-put_self m.active_requests h _,
    refl,
  ),
  λ u. (response_moves m h t t r u v p s).0,
  λ u. rw (response-eq-start_decoding m h t r v p s),
)

first_response-Underway :
    (m : Monitor) (h t : ℕ) (r : ActiveRequest) (exchange : Exchange)
    → Inv m
    → Dict.get m.active_requests h ≡ some r
    → r.stage ≡ prefill
    → Underway m h r.engine_url (first_response m h t exchange)
first_response-Underway m h t r (no_headers i) v p s = (v, (r, p, refl), λ u. refl, λ u. refl)
first_response-Underway m h t r (answered status events [] ending) v p s =
    (v, (r, p, refl), λ u. refl, λ u. refl)
first_response-Underway m h t r (answered status events (c ∷ cs) ending) v p s =
    response-Underway m h t r v p s

cancel : {a b c d k k' : ℕ} → a + k ≡ b → b ≡ c → c ≡ d + k' → k ≡ k' → a ≡ d
cancel h i j l = omega arith

-- What the end of a request leaves of it, in the terms of the monitor before the request.
abbrev pub Retired :
    Monitor → ℕ → String → Terminal → String → Outcome (Unit {0}) × Monitor → Type 0
Retired m h url t u (outcome, m') =
    Inv m'
    × (Dict.get m'.active_requests h ≡ none)
    × (in_flight m' u ≡ in_flight m u)
    × (Dict.get_or m'.finished_requests u 0
        ≡ Dict.get_or m.finished_requests u 0
          + (if is_complete t then (if url == u then 1 else 0) else 0))
    × (outcome ≡ return tt)

pub retired :
    (m : Monitor) (url id : String) (start end_time : ℕ) (m2 : Monitor) (t : Terminal) (u : String)
    → Underway (on_new_request m url id start).1 (on_new_request m url id start).0 url m2
    → Retired m
        (on_new_request m url id start).0
        url
        t
        u
        (terminal_hook t m2 (on_new_request m url id start).0 end_time)
unfolding on_new_request
retired m url id start end_time m2 t u (v2, (r, p, q), flight, done) =
    let h : ℕ = m.next_handle in
    let c : Bool = is_complete t in
    let (balance, finished) = finalize_accounting m2 h end_time c r u v2 p in
    let new_flight = in_flight-new m url id start u in
    rw (hook-eq t m2 h end_time) (
      finalize_request-Inv m2 h end_time c v2,
      get-finalize_request m2 h end_time c,
      cancel balance (flight u) new_flight (ap (λ x. if x == u then 1 else 0) q),
      finished
          ∙ ap (λ n. n + (if c then (if r.engine_url == u then 1 else 0) else 0)) (done u)
          ∙ ap
              (λ x.
                Dict.get_or m.finished_requests u 0 + (if c then (if x == u then 1 else 0) else 0))
              q,
      finalize_request-returns m2 h end_time c v2,
    )

-- The body of the answer has come to its end without an interruption.
abbrev pub ran_to_end : Exchange → Bool
ran_to_end (answered status events chunks none) = true
ran_to_end exchange = false

is_complete-terminal_of :
    (exchange : Exchange) → is_complete (terminal_of exchange) ≡ ran_to_end exchange
is_complete-terminal_of (no_headers (cancelled true)) = refl
is_complete-terminal_of (no_headers (cancelled false)) = refl
is_complete-terminal_of (no_headers timed_out) = refl
is_complete-terminal_of (no_headers (failed e)) = refl
is_complete-terminal_of (answered n events chunks none) = refl
is_complete-terminal_of (answered n events chunks (some (cancelled true))) = refl
is_complete-terminal_of (answered n events chunks (some (cancelled false))) = refl
is_complete-terminal_of (answered n events chunks (some timed_out)) = refl
is_complete-terminal_of (answered n events chunks (some (failed e))) = refl

-- Balance: in a monitor whose counters are exact, and for a request whose body is JSON: however
-- the exchange goes, before or after the headers, to its end, cancelled, timed out or broken, the
-- request is retired from the statistics. Its handle is gone, the requests in flight on every
-- engine are as many as before, `finished_requests` of its engine grows by one just when the
-- exchange ran to its end, the counters stay exact, and the client sees the exchange's own end.
pub process_request_balanced :
    (m : Monitor) (url id : String) (clock : Clock) (exchange : Exchange) (u : String)
    → Inv m
    → let m' = (process_request m true url id clock exchange).monitor in
      Inv m'
      × (Dict.get m'.active_requests m.next_handle ≡ none)
      × (in_flight m' u ≡ in_flight m u)
      × (Dict.get_or m'.finished_requests u 0
          ≡ Dict.get_or m.finished_requests u 0
            + (if ran_to_end exchange then (if url == u then 1 else 0) else 0))
      × ((process_request m true url id clock exchange).outcome ≡ (yields exchange).1)
unfolding process_request on_new_request
process_request_balanced m url id clock exchange u v =
    let m1 : Monitor = (on_new_request m url id clock.start_time).1 in
    let underway =
      first_response-Underway m1 m.next_handle clock.response_time (new m url id clock.start_time)
        exchange (on_new_request-Inv m url id clock.start_time v)
        (get-new m url id clock.start_time) refl in
    let (inv, gone, flight, finished, returned) =
      retired m url id clock.start_time clock.end_time
        (first_response m1 m.next_handle clock.response_time exchange) (terminal_of exchange) u
        underway in
    let ended : Dict.get_or (process_request m true url id clock exchange).monitor.finished_requests
          u 0
        ≡ Dict.get_or m.finished_requests u 0
          + (if ran_to_end exchange then (if url == u then 1 else 0) else 0) =
      finished
      ∙ ap
          (λ b.
            Dict.get_or m.finished_requests u 0 + (if b then (if url == u then 1 else 0) else 0))
          (is_complete-terminal_of exchange) in
    (inv, gone, flight, ended, ap (finally (yields exchange).1) returned)
