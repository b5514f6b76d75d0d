-- ===== src/Stats/Monitor/Invariant.antt =====
-- The per-engine counters agree with the table of active requests, after any history of calls.
use production_stack.Base.Names.{
  ℕ, ◌+◌, ◌-◌, ◌≤◌, String, ◌≡◌, refl, true, false, none, some, arith,
}
use production_stack.Base.Tests.{if◌then◌else◌}
use production_stack.Base.Eq.{◌==◌, nat_eq, string_eq}
use production_stack.Base.Lists.{Distinct}
use production_stack.Base.Dict
use production_stack.Base.Dict.{
  Dict, has-get, get-put, get-del, has-put, has-del, has-of-get, Distinct-put, Distinct-del,
}
use production_stack.Stats.Monitor.Count.{count, count-put_new}
use production_stack.Stats.Monitor.{
  Monitor, ActiveRequest, prefill, decoding, init, bump, drop_one, on_new_request, monitor_of,
}

pub record Inv (m : Monitor) : Type 0 where
  pub prefills :
      (u : String) → Dict.get_or m.in_prefill_requests u 0 ≡ count prefill u m.active_requests
  pub decodings :
      (u : String) → Dict.get_or m.in_decoding_requests u 0 ≡ count decoding u m.active_requests
  pub distinct : Distinct (Dict.keys m.active_requests)
  pub fresh : (h : ℕ) → m.next_handle ≤ h → Dict.has m.active_requests h ≡ false
  pub latency :
      (h : ℕ) (r : ActiveRequest)
      → Dict.get m.active_requests h ≡ some r
      → Dict.has m.latency_monitors r.engine_url ≡ true
  pub starts : (h : ℕ) → Dict.has m.request_start_time h ≡ Dict.has m.active_requests h

pub get_or-bump :
    (c : Dict String ℕ) (v u : String)
    → Dict.get_or (bump c v) u 0 ≡ Dict.get_or c u 0 + (if v == u then 1 else 0)
unfolding bump
get_or-bump c v u = ground (arith, get-put c v (Dict.get_or c v 0 + 1) u, string_eq.beq_iff v u)

pub get_or-drop_one :
    (c : Dict String ℕ) (v u : String)
    → Dict.get_or (drop_one c v) u 0 ≡ Dict.get_or c u 0 - (if v == u then 1 else 0)
unfolding drop_one
get_or-drop_one c v u = ground (arith, get-put c v (Dict.get_or c v 0 - 1) u, string_eq.beq_iff v u)

pub init-Inv : (size : ℕ) → Inv (init size)
unfolding init count Dict.get Dict.has
init-Inv size = record {
  prefills = λ u. refl;
  decodings = λ u. refl;
  distinct = tt;
  fresh = λ h l. refl;
  latency = λ h r e. cc;
  starts = λ h. refl;
}

pub on_new_request-Inv :
    (m : Monitor) (url id : String) (t : ℕ) → Inv m → Inv (on_new_request m url id t).1
unfolding on_new_request
on_new_request-Inv m url id t v = record {
  prefills = λ u. ground (
    arith,
    v.prefills u,
    get_or-bump m.in_prefill_requests url u,
    count-put_new prefill u m.active_requests m.next_handle new
        (v.fresh m.next_handle (omega arith)),
  );
  decodings = λ u. ground (
    arith,
    v.decodings u,
    count-put_new decoding u m.active_requests m.next_handle new
        (v.fresh m.next_handle (omega arith)),
  );
  distinct = Distinct-put m.active_requests m.next_handle new v.distinct;
  fresh =
      λ h l. ground (arith, v.fresh h (omega arith), has-put m.active_requests m.next_handle new h);
  latency = λ h r e. ground (
    arith,
    v.latency h r,
    get-put m.active_requests m.next_handle new h,
    has-put m.latency_monitors url (monitor_of m.sliding_window_size m.latency_monitors url)
        r.engine_url,
    string_eq.beq_iff url r.engine_url,
  );
  starts = λ h. ground (
    arith,
    v.starts h,
    has-put m.active_requests m.next_handle new h,
    has-put m.request_start_time m.next_handle t h,
  );
}
  where
    new : ActiveRequest
    new = record {
      stage = prefill;
      engine_url = url;
      request_id = id;
      start_time = t;
      first_token_time = none;
    }
