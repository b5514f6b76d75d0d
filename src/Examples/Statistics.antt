-- ===== src/Examples/Statistics.antt =====
-- Examples on the statistics.
use production_stack.Base.Names.{
  ℕ, ◌+◌, ◌<◌, String, ◌≡◌, refl, true, false, ◌||◌, none, some, List, [], ◌∷◌, arith,
}
use production_stack.Base.Tests.{if◌then◌else◌}
use production_stack.Base.Eq.{◌==◌, string_eq, nat_eq}
use production_stack.Base.Lists.{filter}
use production_stack.Base.Dict
use production_stack.Base.Dict.{Dict}
use production_stack.Base.Int.{pos}
use production_stack.Base.Outcome.{return}
use production_stack.Stats.Window
use production_stack.Stats.Window.Contents.{Holds, feed, recent, feed-contents}
use production_stack.Stats.Monitor.{
  Monitor, ActiveRequest, init, prefill, decoding, on_new_request, on_request_response,
  start_decoding, bump, finalize_request,
}
use production_stack.Stats.Monitor.Invariant.{Inv}
use production_stack.Stats.Monitor.Lifecycle.{
  Call, new_request, request_response, request_complete, step, run, run-Inv, in_flight,
  new_requests, counters_exact, finalize_accounting,
}
use production_stack.Stats.Monitor.Invariant.{init-Inv}
use production_stack.Stats.Monitor.Report.{
  RequestStats, get_request_stats, SameCounters, Counts, report_exact,
}
use production_stack.Examples.Data.{whole}

abbrev calls : List Call
calls = new_request "a" "r1" 1 ∷ request_response 0 3 ∷ new_request "b" "r2" 4 ∷ []

abbrev busy : Monitor
busy = run (init 60) calls

abbrev first : ActiveRequest
first = record {
  stage = decoding;
  engine_url = "a";
  request_id = "r1";
  start_time = 1;
  first_token_time = some 3;
}

abbrev second : ActiveRequest
second = record {
  stage = prefill;
  engine_url = "b";
  request_id = "r2";
  start_time = 4;
  first_token_time = none;
}

counters_exact_example :
    Inv (run (init 60) calls)
    × ((step (run (init 60) calls) (request_complete 0 9)).0 ≡ return tt)
    × ((on_new_request (run (init 60) calls) "a" "r" 9).0 ≡ new_requests calls)
counters_exact_example = counters_exact 60 calls (request_complete 0 9) "a" "r" 9

busy-Inv : Inv busy
busy-Inv = run-Inv (init 60) calls (init-Inv 60)

busy-first : Dict.get busy.active_requests 0 ≡ some first
unfolding run Dict.get on_new_request Dict.put on_request_response start_decoding init bump
busy-first = refl

busy-second : Dict.get busy.active_requests 1 ≡ some second
unfolding run Dict.get on_new_request Dict.put on_request_response start_decoding init bump
busy-second = refl

finalize_accounting_example :
    (in_flight (finalize_request busy 0 9 true).1 "a" + (if first.engine_url == "a" then 1 else 0)
      ≡ in_flight busy "a")
    × (Dict.get_or (finalize_request busy 0 9 true).1.finished_requests "a" 0
        ≡ Dict.get_or busy.finished_requests "a" 0
          + (if true then (if first.engine_url == "a" then 1 else 0) else 0))
finalize_accounting_example = finalize_accounting busy 0 9 true first "a" busy-Inv busy-first

busy-window : 0 < busy.sliding_window_size
unfolding run Dict.get on_new_request Dict.put on_request_response start_decoding init bump
busy-window = omega arith

report_exact_example :
    (stats : Dict String (RequestStats ℕ)) × (m' : Monitor) × (get_request_stats whole busy 10
      ≡ return (stats, m'))
    × ((u : String)
        → ((Dict.has busy.in_prefill_requests u || Dict.has busy.in_decoding_requests u) ≡ true
            → (s : RequestStats ℕ) × (Dict.get stats u ≡ some s) × Counts whole busy u s)
          × ((Dict.has busy.in_prefill_requests u || Dict.has busy.in_decoding_requests u) ≡ false
              → Dict.get stats u ≡ none))
    × SameCounters whole m' busy
report_exact_example = report_exact whole busy 10 busy-window

feed-contents_example :
    Holds
      (Window.update_no_value (feed (Window.init 5) ((1, pos 4) ∷ (3, pos 2) ∷ (8, pos 7) ∷ [])) 8)
      (filter (recent 5 8) ((1, pos 4) ∷ (3, pos 2) ∷ (8, pos 7) ∷ []))
feed-contents_example =
    feed-contents 5 8 ((1, pos 4) ∷ (3, pos 2) ∷ (8, pos 7) ∷ [])
      (omega arith, (omega arith, (omega arith, tt)))
      (omega arith, (omega arith, (omega arith, tt)))
