-- ===== src/Stats/Monitor/Lifecycle.antt =====
-- Histories of calls: the counters stay in step with the table, and every request is retired once.
use production_stack.Base.Names.{
  ℕ, suc, ◌+◌, String, ◌≡◌, refl, ap, ◌∙◌, Bool, true, false, none, some, List, [], ◌∷◌, arith,
}
use production_stack.Base.Tests.{if◌then◌else◌}
use production_stack.Base.Eq.{◌==◌, nat_eq, string_eq}
use production_stack.Base.Dict
use production_stack.Base.Dict.{Dict, get-put, get-del}
use production_stack.Base.Outcome.{Outcome, return}
use production_stack.Stats.Monitor.Invariant.{
  Inv, init-Inv, on_new_request-Inv, get_or-bump, get_or-drop_one,
}
use production_stack.Stats.Monitor.Finalize.{
  active_counted, finalize_request-Inv, finalize_request-returns, on_request_response-Inv,
}
use production_stack.Stats.Monitor.{
  Monitor, ActiveRequest, prefill, decoding, is_prefill, init, start_decoding, on_new_request,
  record_completion, retire_count, on_request_response, finalize_request, on_request_complete,
  on_request_fail, on_request_abort, on_request_swapped,
}

-- A call of a method that changes the monitor.
pub data Call : Type 0 where
  new_request : (engine_url request_id : String) (timestamp : ℕ) → Call
  request_response request_complete request_fail request_abort : (handle timestamp : ℕ) → Call
  request_swapped : (engine_url request_id : String) (timestamp : ℕ) → Call

abbrev pub step : Monitor → Call → Outcome (Unit {0}) × Monitor
step m (new_request url id t) = (return tt, (on_new_request m url id t).1)
step m (request_response h t) = (return tt, on_request_response m h t)
step m (request_complete h t) = on_request_complete m h t
step m (request_fail h t) = on_request_fail m h t
step m (request_abort h t) = on_request_abort m h t
step m (request_swapped url id t) = (return tt, on_request_swapped m url id t)

unfoldable pub run : Monitor → List Call → Monitor
run m [] = m
run m (c ∷ cs) = run (step m c).1 cs

on_request_swapped-Inv :
    (m : Monitor) (url id : String) (t : ℕ) → Inv m → Inv (on_request_swapped m url id t)
unfolding on_request_swapped
on_request_swapped-Inv m url id t v = record {
  prefills = v.prefills;
  decodings = v.decodings;
  distinct = v.distinct;
  fresh = v.fresh;
  latency = v.latency;
  starts = v.starts;
}

pub step-Inv : (m : Monitor) (c : Call) → Inv m → Inv (step m c).1
unfolding on_request_complete on_request_fail on_request_abort
step-Inv m (new_request url id t) v = on_new_request-Inv m url id t v
step-Inv m (request_response h t) v = on_request_response-Inv m h t v
step-Inv m (request_complete h t) v = finalize_request-Inv m h t true v
step-Inv m (request_fail h t) v = finalize_request-Inv m h t false v
step-Inv m (request_abort h t) v = finalize_request-Inv m h t false v
step-Inv m (request_swapped url id t) v = on_request_swapped-Inv m url id t v

pub step-returns : (m : Monitor) (c : Call) → Inv m → (step m c).0 ≡ return tt
unfolding on_request_complete on_request_fail on_request_abort
step-returns m (new_request url id t) v = refl
step-returns m (request_response h t) v = refl
step-returns m (request_complete h t) v = finalize_request-returns m h t true v
step-returns m (request_fail h t) v = finalize_request-returns m h t false v
step-returns m (request_abort h t) v = finalize_request-returns m h t false v
step-returns m (request_swapped url id t) v = refl

pub run-Inv : (m : Monitor) (cs : List Call) → Inv m → Inv (run m cs)
unfolding run
run-Inv m [] v = v
run-Inv m (c ∷ cs) v = run-Inv (step m c).1 cs (step-Inv m c v)

-- The calls of on_new_request in a history.
abbrev pub new_requests : List Call → ℕ
new_requests [] = 0
new_requests (new_request url id t ∷ cs) = suc (new_requests cs)
new_requests (c ∷ cs) = new_requests cs

next_handle-finalize_request :
    (m : Monitor) (h t : ℕ) (completed : Bool)
    → (finalize_request m h t completed).1.next_handle ≡ m.next_handle
unfolding finalize_request record_completion retire_count
next_handle-finalize_request m h t completed = ground arith

next_handle-on_request_response :
    (m : Monitor) (h t : ℕ) → (on_request_response m h t).next_handle ≡ m.next_handle
unfolding on_request_response start_decoding
next_handle-on_request_response m h t = ground arith

next_handle-run :
    (m : Monitor) (cs : List Call) → (run m cs).next_handle ≡ m.next_handle + new_requests cs
unfolding run on_new_request on_request_complete on_request_fail on_request_abort on_request_swapped
next_handle-run m [] = ground arith
next_handle-run m (new_request url id t ∷ cs) =
    ground (arith, next_handle-run (on_new_request m url id t).1 cs)
next_handle-run m (request_response h t ∷ cs) =
    next_handle-run (on_request_response m h t) cs
    ∙ ap (λ n. n + new_requests cs) (next_handle-on_request_response m h t)
next_handle-run m (request_complete h t ∷ cs) =
    next_handle-run (finalize_request m h t true).1 cs
    ∙ ap (λ n. n + new_requests cs) (next_handle-finalize_request m h t true)
next_handle-run m (request_fail h t ∷ cs) =
    next_handle-run (finalize_request m h t false).1 cs
    ∙ ap (λ n. n + new_requests cs) (next_handle-finalize_request m h t false)
next_handle-run m (request_abort h t ∷ cs) =
    next_handle-run (finalize_request m h t false).1 cs
    ∙ ap (λ n. n + new_requests cs) (next_handle-finalize_request m h t false)
next_handle-run m (request_swapped url id t ∷ cs) =
    next_handle-run (on_request_swapped m url id t) cs

handle-on_new_request :
    (m : Monitor) (url id : String) (t : ℕ) → (on_new_request m url id t).0 ≡ m.next_handle
unfolding on_new_request
handle-on_new_request m url id t = refl

next_handle-init : (size : ℕ) → (init size).next_handle ≡ 0
unfolding init
next_handle-init size = refl

-- After any history of calls on a fresh monitor, on every engine the counters `in_prefill_requests`
-- and `in_decoding_requests` are the numbers of active requests of that stage, every active request
-- has a start time and an engine with a latency monitor, the next call does not raise, and a new
-- request gets the number of the new requests before it as its handle, so that no handle is given
-- out twice, however requests end.
pub counters_exact :
    (size : ℕ) (cs : List Call) (next : Call) (url id : String) (t : ℕ)
    → Inv (run (init size) cs)
      × ((step (run (init size) cs) next).0 ≡ return tt)
      × ((on_new_request (run (init size) cs) url id t).0 ≡ new_requests cs)
counters_exact size cs next url id t =
    let v = run-Inv (init size) cs (init-Inv size) in
    (
      v,
      step-returns _ next v,
      handle-on_new_request (run (init size) cs) url id t
          ∙ next_handle-run (init size) cs
          ∙ omega (arith, next_handle-init size),
    )

-- However a request ends, its handle is gone from the table.
pub get-finalize_request :
    (m : Monitor) (h t : ℕ) (completed : Bool)
    → Dict.get (finalize_request m h t completed).1.active_requests h ≡ none
unfolding finalize_request
get-finalize_request m h t completed =
    ground (arith, get-del m.active_requests h h, nat_eq.beq_iff h h)

finalize_request-missing :
    (m : Monitor) (h t : ℕ) (completed : Bool)
    → Dict.get m.active_requests h ≡ none
    → finalize_request m h t completed ≡ (return tt, m)
unfolding finalize_request
finalize_request-missing m h t completed e = rw (e, finalize_request)

-- A second terminal call for a handle, of whatever kind and at whatever time, changes nothing.
pub finalize_twice :
    (m : Monitor) (h t t' : ℕ) (c c' : Bool)
    → let m' = (finalize_request m h t c).1 in finalize_request m' h t' c' ≡ (return tt, m')
finalize_twice m h t t' c c' = finalize_request-missing _ h t' c' (get-finalize_request m h t c)

-- Requests in flight on an engine, by the two counters.
abbrev pub in_flight : Monitor → String → ℕ
in_flight m u = Dict.get_or m.in_prefill_requests u 0 + Dict.get_or m.in_decoding_requests u 0

-- In a monitor whose counters are exact, ending an active request takes exactly one from the
-- requests in flight on its own engine and none from any other, whether it was still prefilling or
-- already decoding; and `finished_requests` of its engine grows by one just when it completed.
pub finalize_accounting :
    (m : Monitor) (h t : ℕ) (completed : Bool) (r : ActiveRequest) (u : String)
    → Inv m
    → Dict.get m.active_requests h ≡ some r
    → let m' = (finalize_request m h t completed).1 in
      (in_flight m' u + (if r.engine_url == u then 1 else 0) ≡ in_flight m u)
      × (Dict.get_or m'.finished_requests u 0
          ≡ Dict.get_or m.finished_requests u 0
            + (if completed then (if r.engine_url == u then 1 else 0) else 0))
unfolding finalize_request
finalize_accounting m h t completed r u v e = (
  ground (
    arith,
    active_counted m h r t v e,
    get_or-drop_one m.in_prefill_requests r.engine_url u,
    get_or-drop_one m.in_decoding_requests r.engine_url u,
    string_eq.beq_iff r.engine_url u,
  ),
  ground (arith, get_or-bump m.finished_requests r.engine_url u),
)

pub response-eq-start_decoding :
    (m : Monitor) (h t : ℕ) (r : ActiveRequest)
    → Inv m
    → Dict.get m.active_requests h ≡ some r
    → r.stage ≡ prefill
    → on_request_response m h t ≡ start_decoding m h r t
unfolding on_request_response
response-eq-start_decoding m h t r v e s =
    rw (e, on_request_response) (ground (arith, active_counted m h r t v e))

response-decoding :
    (m : Monitor) (h t : ℕ) (r : ActiveRequest)
    → Dict.get m.active_requests h ≡ some r
    → is_prefill r.stage ≡ false
    → on_request_response m h t ≡ m
unfolding on_request_response
response-decoding m h t r e s = rw (e, on_request_response) (rw s)

-- In a monitor whose counters are exact, the first token of a prefilling request moves it: the
-- requests in flight on every engine stay as many, its engine has one prefilling request less, and
-- a second token changes nothing.
pub response_moves :
    (m : Monitor) (h t t' : ℕ) (r : ActiveRequest) (u : String)
    → Inv m
    → Dict.get m.active_requests h ≡ some r
    → r.stage ≡ prefill
    → let m' = on_request_response m h t in
      (in_flight m' u ≡ in_flight m u)
      × (Dict.get_or m'.in_prefill_requests u 0 + (if r.engine_url == u then 1 else 0)
          ≡ Dict.get_or m.in_prefill_requests u 0)
      × (on_request_response m' h t' ≡ m')
response_moves m h t t' r u v e s = rw (response-eq-start_decoding m h t r v e s) (
  unfold start_decoding in
      ground (
        arith,
        active_counted m h r t v e,
        get_or-drop_one m.in_prefill_requests r.engine_url u,
        get_or-bump m.in_decoding_requests r.engine_url u,
        string_eq.beq_iff r.engine_url u,
      ),
  unfold start_decoding in
      ground (
        arith,
        active_counted m h r t v e,
        get_or-drop_one m.in_prefill_requests r.engine_url u,
        string_eq.beq_iff r.engine_url u,
      ),
  response-decoding _ h t' moved
      (unfold start_decoding in
        ground (arith, get-put m.active_requests h moved h, nat_eq.beq_iff h h))
      refl,
)
  where
    moved : ActiveRequest
    moved = record r { stage = decoding; first_token_time = some t }
