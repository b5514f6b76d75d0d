-- ===== src/Stats/Monitor.antt =====
-- `RequestStatsMonitor` of src/vllm_router/stats/request_stats.py. The lock makes each method one
-- step; a method that may raise gives its outcome beside the state that it leaves.
mod Count
pub mod Finalize
pub mod Invariant
pub mod Lifecycle
pub mod Report
use production_stack.Base.Names.{
  ℕ, suc, ◌+◌, ◌-◌, String, Bool, true, false, not, Option, none, some, [], ◌++◌, List,
}
use production_stack.Base.Tests.{ltb, nat_beq, if◌then◌else◌}
use production_stack.Base.Eq.{Eq, ◌==◌, nat_eq, string_eq}
use production_stack.Base.Dict
use production_stack.Base.Dict.{Dict}
use production_stack.Base.Int.{ℤ, pos, sub_ℕ}
use production_stack.Base.Outcome.{Outcome, return, raise, key_error}
use production_stack.Stats.Window
use production_stack.Stats.Window.{Window}

pub data Stage : Type 0 where
  prefill decoding : Stage

-- `_ActiveRequest`
pub record ActiveRequest : Type 0 where
  pub stage : Stage
  pub engine_url : String
  pub request_id : String
  pub start_time : ℕ
  pub first_token_time : Option ℕ

-- A `RequestHandle` is the number that it wraps.
pub record Monitor : Type 0 where
  pub sliding_window_size : ℕ
  pub next_handle : ℕ
  pub active_requests : Dict ℕ ActiveRequest
  pub qps_monitors : Dict String Window
  pub ttft_monitors : Dict String Window
  pub request_start_time : Dict ℕ ℕ
  pub first_token_time : Dict ℕ ℕ
  pub in_prefill_requests : Dict String ℕ
  pub in_decoding_requests : Dict String ℕ
  pub finished_requests : Dict String ℕ
  pub latency_monitors : Dict String Window
  pub decoding_length_monitors : Dict String Window
  pub swapped_requests : Dict String ℕ
  pub first_query_time : Option ℕ

unfoldable pub init : ℕ → Monitor
init size = record {
  sliding_window_size = size;
  next_handle = 0;
  active_requests = [];
  qps_monitors = [];
  ttft_monitors = [];
  request_start_time = [];
  first_token_time = [];
  in_prefill_requests = [];
  in_decoding_requests = [];
  finished_requests = [];
  latency_monitors = [];
  decoding_length_monitors = [];
  swapped_requests = [];
  first_query_time = none;
}

-- counts.setdefault(url, 0); counts[url] += 1
unfoldable pub bump : Dict String ℕ → String → Dict String ℕ
bump counts url = Dict.put counts url (Dict.get_or counts url 0 + 1)

-- counts[url] -= 1, where the caller has seen that the count is positive
unfoldable pub drop_one : Dict String ℕ → String → Dict String ℕ
drop_one counts url = Dict.put counts url (Dict.get_or counts url 0 - 1)

-- The monitor of `url`, made where there is none.
unfoldable pub monitor_of : ℕ → Dict String Window → String → Window
monitor_of size monitors url = Dict.get_or monitors url (Window.init size)

unfoldable pub on_new_request : Monitor → String → String → ℕ → ℕ × Monitor
on_new_request m engine_url request_id timestamp = (
  m.next_handle,
  record m {
    next_handle = m.next_handle + 1;
    active_requests = Dict.put m.active_requests m.next_handle (record {
      stage = prefill;
      engine_url = engine_url;
      request_id = request_id;
      start_time = timestamp;
      first_token_time = none;
    });
    request_start_time = Dict.put m.request_start_time m.next_handle timestamp;
    in_prefill_requests = bump m.in_prefill_requests engine_url;
    qps_monitors = Dict.put m.qps_monitors engine_url (
        Window.update (monitor_of m.sliding_window_size m.qps_monitors engine_url) timestamp
          (pos 1));
    latency_monitors =
        Dict.put m.latency_monitors engine_url
          (monitor_of m.sliding_window_size m.latency_monitors engine_url);
    first_query_time = elim m.first_query_time [ none ↦ some timestamp | some t ↦ some t ];
  },
)

-- The body behind the two early returns.
unfoldable pub start_decoding : Monitor → ℕ → ActiveRequest → ℕ → Monitor
start_decoding m handle request timestamp = record m {
  active_requests =
      Dict.put m.active_requests handle
        (record request { stage = decoding; first_token_time = some timestamp });
  first_token_time = Dict.put m.first_token_time handle timestamp;
  in_prefill_requests = drop_one m.in_prefill_requests request.engine_url;
  in_decoding_requests = bump m.in_decoding_requests request.engine_url;
  ttft_monitors = Dict.put m.ttft_monitors request.engine_url (
      Window.update (monitor_of m.sliding_window_size m.ttft_monitors request.engine_url) timestamp
        (sub_ℕ timestamp request.start_time));
}

abbrev pub is_prefill : Stage → Bool
is_prefill prefill = true
is_prefill decoding = false

unfoldable pub on_request_response : Monitor → ℕ → ℕ → Monitor
unfolding start_decoding
on_request_response m handle timestamp = elim (Dict.get m.active_requests handle) [
  | none ↦ m
  | some request ↦
      if is_prefill request.stage
      then (if ltb 0 (Dict.get_or m.in_prefill_requests request.engine_url 0)
          then start_decoding m handle request timestamp
          else m)
      else m
]

-- The counter of the stage, one lower; a count that is not positive is only logged.
unfoldable pub retire_count : Monitor → ActiveRequest → Monitor
retire_count m request =
    let url = request.engine_url in
    if is_prefill request.stage
    then (if ltb 0 (Dict.get_or m.in_prefill_requests url 0)
        then record m { in_prefill_requests = drop_one m.in_prefill_requests url }
        else m)
    else (if ltb 0 (Dict.get_or m.in_decoding_requests url 0)
        then record m { in_decoding_requests = drop_one m.in_decoding_requests url }
        else m)

-- finished_requests and the latency; `latency_monitors[engine_url]` raises where it is missing.
unfoldable pub record_completion : Monitor → ActiveRequest → ℕ → Outcome (Unit {0}) × Monitor
record_completion m request timestamp =
    let url = request.engine_url in
    let m' : Monitor = record m { finished_requests = bump m.finished_requests url } in
    elim (Dict.get m.latency_monitors url) [
      | none ↦ (raise key_error, m')
      | some w ↦ (
        return tt,
        record m' {
          latency_monitors =
              Dict.put m.latency_monitors url
                (Window.update w timestamp (sub_ℕ timestamp request.start_time));
        },
      )
    ]

unfoldable pub finalize_request : Monitor → ℕ → ℕ → Bool → Outcome (Unit {0}) × Monitor
unfolding retire_count record_completion
finalize_request m handle timestamp completed = elim (Dict.get m.active_requests handle) [
  | none ↦ (return tt, m)
  | some request ↦
      let m' =
        retire_count
          (record m {
            active_requests = Dict.del m.active_requests handle;
            request_start_time = Dict.del m.request_start_time handle;
            first_token_time = Dict.del m.first_token_time handle;
          })
          request in
      if completed then record_completion m' request timestamp else (return tt, m')
]

unfoldable pub on_request_complete : Monitor → ℕ → ℕ → Outcome (Unit {0}) × Monitor
on_request_complete m handle timestamp = finalize_request m handle timestamp true

unfoldable pub on_request_fail : Monitor → ℕ → ℕ → Outcome (Unit {0}) × Monitor
on_request_fail m handle timestamp = finalize_request m handle timestamp false

unfoldable pub on_request_abort : Monitor → ℕ → ℕ → Outcome (Unit {0}) × Monitor
on_request_abort m handle timestamp = finalize_request m handle timestamp false

unfoldable pub on_request_swapped : Monitor → String → String → ℕ → Monitor
on_request_swapped m engine_url request_id timestamp = record m {
  swapped_requests = bump m.swapped_requests engine_url;
}
