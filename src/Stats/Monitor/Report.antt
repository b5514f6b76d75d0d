-- ===== src/Stats/Monitor/Report.antt =====
-- `get_request_stats` of src/vllm_router/stats/request_stats.py: the figures that the routing logic
-- reads, and that the counters in them are those of the monitor.
use production_stack.Base.Names.{
  ℕ, zero, suc, ◌<◌, String, ◌≡◌, refl, ◌∙◌, inl, inr, true, false, ◌||◌, Option, none, some, List,
  [], ◌∷◌, ◌++◌, arith,
}
use production_stack.Base.Tests.{Bool-cases, Option-cases}
use production_stack.Base.Eq.{nat_eq, string_eq, contains}
use production_stack.Base.Lists.{dedup, contains-dedup, contains-append}
use production_stack.Base.Int.{ℤ, pos, negsuc, sub_ℕ}
use production_stack.Base.Float.{Float}
use production_stack.Base.Dict
use production_stack.Base.Dict.{Dict, get-put, contains-keys}
use production_stack.Base.Outcome.{Outcome, return, raise, zero_division, ◌>>=◌}
use production_stack.Stats.Window
use production_stack.Stats.Window.{Window}
use production_stack.Stats.Monitor.{Monitor}

pub record RequestStats (F : Type 0) : Type 0 where
  pub qps : F
  pub ttft : F
  pub in_prefill_requests : ℕ
  pub in_decoding_requests : ℕ
  pub finished_requests : ℕ
  pub uptime : F
  pub avg_decoding_length : F
  pub avg_latency : F
  pub avg_itl : F
  pub num_swapped_requests : ℕ

-- `monitors[url].update_no_value(now)`, if the engine has a monitor
abbrev refresh : Dict String Window → String → ℕ → Dict String Window
refresh d url now = elim (Dict.get d url) [
  | none ↦ d
  | some w ↦ Dict.put d url (Window.update_no_value w now)
]

module _ (float : Float) where
  open float use {F, ratio}

  -- -1, the figure of what has not been measured
  abbrev missing : F
  missing = ratio (negsuc 0) 1

  -- sum / sliding_window_size
  abbrev rate : ℤ → ℕ → Outcome F
  rate total zero = raise zero_division
  rate total (suc n) = return (ratio total (suc n))

  abbrev qps_of : Monitor → String → Outcome F
  qps_of m url = elim (Dict.get m.qps_monitors url) [
    | none ↦ return missing
    | some w ↦ rate (Window.get_sum w) m.sliding_window_size
  ]

  abbrev average_of : Dict String Window → String → F
  average_of d url = elim (Dict.get d url) [ none ↦ missing | some w ↦ Window.get_average float w ]

  -- `first_query_time` is tested as a truth value, so the time 0 counts as none.
  abbrev uptime_of : Option ℕ → ℕ → F
  uptime_of none now = ratio (pos 0) 1
  uptime_of (some zero) now = ratio (pos 0) 1
  uptime_of (some (suc t)) now = ratio (sub_ℕ now (suc t)) 1

  -- Both monitors of the engine brought to the time `now`.
  unfoldable pub refreshed : Monitor → ℕ → String → Monitor
  refreshed m now url = record m {
    qps_monitors = refresh m.qps_monitors url now;
    ttft_monitors = refresh m.ttft_monitors url now;
  }

  unfoldable pub figures : Monitor → ℕ → String → F → RequestStats F
  figures m now url qps = record {
    qps = qps;
    ttft = average_of m.ttft_monitors url;
    in_prefill_requests = Dict.get_or m.in_prefill_requests url 0;
    in_decoding_requests = Dict.get_or m.in_decoding_requests url 0;
    finished_requests = Dict.get_or m.finished_requests url 0;
    uptime = uptime_of m.first_query_time now;
    avg_decoding_length = average_of m.decoding_length_monitors url;
    avg_latency = average_of m.latency_monitors url;
    avg_itl = missing;
    num_swapped_requests = Dict.get_or m.swapped_requests url 0;
  }

  -- The body of the loop over the engines.
  unfoldable pub engine_report : Monitor → ℕ → String → Outcome (RequestStats F × Monitor)
  unfolding refreshed figures
  engine_report m now url = qps_of (refreshed m now url) url >>= λ qps.
      return (figures (refreshed m now url) now url qps, refreshed m now url)

  unfoldable pub report_engines :
      ℕ
      → List String
      → Monitor
      → Dict String (RequestStats F)
      → Outcome (Dict String (RequestStats F) × Monitor)
  report_engines now [] m ret = return (ret, m)
  report_engines now (url ∷ urls) m ret =
      engine_report m now url >>= λ (s, m'). report_engines now urls m' (Dict.put ret url s)

  -- The engines are those of the two counters; their order in the set is not modelled.
  unfoldable pub get_request_stats : Monitor → ℕ → Outcome (Dict String (RequestStats F) × Monitor)
  unfolding report_engines engine_report
  get_request_stats m now =
      report_engines now
        (dedup (Dict.keys m.in_prefill_requests ++ Dict.keys m.in_decoding_requests)) m []

  -- The counters of one engine in a report.
  abbrev pub Counts : Monitor → String → RequestStats F → Type 0
  Counts m url s =
      (s.in_prefill_requests ≡ Dict.get_or m.in_prefill_requests url 0)
      × (s.in_decoding_requests ≡ Dict.get_or m.in_decoding_requests url 0)
      × (s.finished_requests ≡ Dict.get_or m.finished_requests url 0)
      × (s.num_swapped_requests ≡ Dict.get_or m.swapped_requests url 0)

  -- The same window size and counters.
  abbrev pub SameCounters : Monitor → Monitor → Type 0
  SameCounters m n =
      (m.sliding_window_size ≡ n.sliding_window_size)
      × (m.in_prefill_requests ≡ n.in_prefill_requests)
      × (m.in_decoding_requests ≡ n.in_decoding_requests)
      × (m.finished_requests ≡ n.finished_requests)
      × (m.swapped_requests ≡ n.swapped_requests)

  rate-returns : (total : ℤ) (n : ℕ) → 0 < n → (q : F) × (rate total n ≡ return q)
  rate-returns total zero h = absurd (omega arith)
  rate-returns total (suc n) h = (ratio total (suc n), refl)

  qps_of-returns :
      (m : Monitor) (url : String) → 0 < m.sliding_window_size → (q : F) × (qps_of m url ≡ return q)
  qps_of-returns m url h = elim (Option-cases (Dict.get m.qps_monitors url)) [
    | inl p ↦ (missing, rw (p, qps_of))
    | inr (w, p) ↦
        let (q, e) = rate-returns (Window.get_sum w) m.sliding_window_size h in
        (q, rw (p, qps_of) e)
  ]

  engine_report-returns :
      (m : Monitor) (now : ℕ) (url : String)
      → 0 < m.sliding_window_size
      → (s : RequestStats F) × (m' : Monitor) × (engine_report m now url ≡ return (s, m'))
        × Counts m url s
        × SameCounters m' m
  unfolding engine_report
  engine_report-returns m now url h =
      let (q, e) = qps_of-returns (refreshed m now url) url h in
      (
        figures (refreshed m now url) now url q,
        refreshed m now url,
        rw e,
        (refl, refl, refl, refl),
        (refl, refl, refl, refl, refl),
      )

  Counts-transfer :
      (n m : Monitor) (url u : String) (s : RequestStats F)
      → url ≡ u
      → SameCounters n m
      → Counts n url s
      → Counts m u s
  Counts-transfer n m url u s p same counts = ground (arith, p, same, counts)

  same_url :
      (url u : String) (urls : List String)
      → contains (url ∷ urls) u ≡ true
      → contains urls u ≡ false
      → url ≡ u
  unfolding contains
  same_url url u urls c p = ground (arith, string_eq.beq_iff url u)

  -- Every engine of the list is in the report with its counters; the others are as before.
  abbrev pub Reports :
      Monitor → List String → Dict String (RequestStats F) → Dict String (RequestStats F) → Type 0
  Reports m urls before after =
      (u : String)
      → (contains urls u ≡ true → (s : RequestStats F) × (Dict.get after u ≡ some s) × Counts m u s)
        × (contains urls u ≡ false → Dict.get after u ≡ Dict.get before u)

  report_engines-Reports :
      (now : ℕ) (urls : List String) (m n : Monitor) (ret : Dict String (RequestStats F))
      → 0 < n.sliding_window_size
      → SameCounters n m
      → (after : Dict String (RequestStats F)) × (m' : Monitor) × (report_engines now urls n ret
          ≡ return (after, m'))
        × Reports m urls ret after
        × SameCounters m' m
  unfolding report_engines contains
  report_engines-Reports now [] m n ret h same =
      (ret, n, refl, (λ u. (λ c. absurd (ground arith), λ c. refl)), same)
  report_engines-Reports now (url ∷ urls) m n ret h same =
      let (s, n', e, counts, same') = engine_report-returns n now url h in
      let (after, m', e', rest, same'') =
        report_engines-Reports now urls m n' (Dict.put ret url s) (ground arith) (ground arith) in
      (
        after,
        m',
        rw e e',
        (λ u. (
          λ c. elim (Bool-cases (contains urls u)) [
            | inl p ↦ (rest u).0 p
            | inr p ↦ (
              s,
              ground (arith, (rest u).1 p, get-put ret url s u, string_eq.beq_iff url u),
              Counts-transfer n m url u s (same_url url u urls c p) same counts,
            )
          ],
          λ c. ground (arith, (rest u).1, get-put ret url s u),
        )),
        same'',
      )

  known :
      (m : Monitor) (u : String)
      → contains (dedup (Dict.keys m.in_prefill_requests ++ Dict.keys m.in_decoding_requests)) u
        ≡ (Dict.has m.in_prefill_requests u || Dict.has m.in_decoding_requests u)
  known m u =
      let pre : List String = Dict.keys m.in_prefill_requests in
      let dec : List String = Dict.keys m.in_decoding_requests in
      contains-dedup (pre ++ dec) u
      ∙ contains-append pre dec u
      ∙ cc (contains-keys m.in_prefill_requests u, contains-keys m.in_decoding_requests u)

  -- With a positive window, the report is returned; it has an entry for exactly the engines that
  -- one of the two in-flight counters knows, with the counters of the monitor at that engine, and
  -- making it leaves the counters as they were.
  pub report_exact :
      (m : Monitor) (now : ℕ)
      → 0 < m.sliding_window_size
      → (stats : Dict String (RequestStats F)) × (m' : Monitor) × (get_request_stats m now
          ≡ return (stats, m'))
        × ((u : String)
            → ((Dict.has m.in_prefill_requests u || Dict.has m.in_decoding_requests u) ≡ true
                → (s : RequestStats F) × (Dict.get stats u ≡ some s) × Counts m u s)
              × ((Dict.has m.in_prefill_requests u || Dict.has m.in_decoding_requests u) ≡ false
                  → Dict.get stats u ≡ none))
        × SameCounters m' m
  unfolding get_request_stats Dict.get
  report_exact m now h =
      let urls : List String =
        Dict.keys m.in_prefill_requests ++ Dict.keys m.in_decoding_requests in
      let (stats, m', e, rest, same) =
        report_engines-Reports now (dedup urls) m m [] h (refl, refl, refl, refl, refl) in
      (
        stats,
        m',
        e,
        (λ u. (λ c. (rest u).0 (known m u ∙ c), λ c. (rest u).1 (known m u ∙ c))),
        same,
      )
