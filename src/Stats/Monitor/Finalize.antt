-- ===== src/Stats/Monitor/Finalize.antt =====
-- The methods that move or retire an active request keep the invariant, and none of them raises.
use production_stack.Base.Names.{ℕ, ◌<◌, ◌≡◌, refl, inl, inr, Bool, true, false, some, arith}
use production_stack.Base.Tests.{ltb, lt→ltb, if◌then◌else◌, Bool-cases, Option-cases}
use production_stack.Base.Eq.{nat_eq, string_eq}
use production_stack.Base.Dict
use production_stack.Base.Dict.{
  Dict, has-get, get-put, get-del, has-put, has-del, has-of-get, Distinct-put, Distinct-del,
}
use production_stack.Base.Int.{sub_ℕ}
use production_stack.Stats.Window
use production_stack.Base.Outcome.{return}
use production_stack.Stats.Monitor.Invariant.{Inv, get_or-bump, get_or-drop_one}
use production_stack.Stats.Monitor.Count.{count-put_old, count-del, one-le-count}
use production_stack.Stats.Monitor.{
  Monitor, ActiveRequest, prefill, decoding, is_prefill, start_decoding, on_request_response,
  retire_count, record_completion, finalize_request,
}

-- What the counter of `_finalize_request` leaves alone.
abbrev SameTables : Monitor → Monitor → Type 0
SameTables m n =
    (m.active_requests ≡ n.active_requests)
    × (m.next_handle ≡ n.next_handle)
    × (m.latency_monitors ≡ n.latency_monitors)
    × (m.request_start_time ≡ n.request_start_time)

retire_count-SameTables : (m : Monitor) (r : ActiveRequest) → SameTables (retire_count m r) m
unfolding retire_count
retire_count-SameTables m r = ground arith

module _ (m : Monitor) (h : ℕ) (r : ActiveRequest) (t : ℕ) (v : Inv m)
    (found : Dict.get m.active_requests h ≡ some r) where
  -- The counter that an active request stands behind is positive, so the guards that log an error
  -- are never taken.
  pub active_counted : 0 < (
      if is_prefill r.stage
      then Dict.get_or m.in_prefill_requests r.engine_url 0
      else Dict.get_or m.in_decoding_requests r.engine_url 0)
  active_counted = ground (
    arith,
    v.prefills r.engine_url,
    v.decodings r.engine_url,
    string_eq.beq_iff r.engine_url r.engine_url,
    one-le-count prefill r.engine_url m.active_requests h r found,
    one-le-count decoding r.engine_url m.active_requests h r found,
  )

  start_decoding-Inv : is_prefill r.stage ≡ true → Inv (start_decoding m h r t)
  unfolding start_decoding
  start_decoding-Inv p = record {
    prefills = λ u. ground (
      arith,
      v.prefills u,
      get_or-drop_one m.in_prefill_requests r.engine_url u,
      count-put_old prefill u m.active_requests h r new found,
    );
    decodings = λ u. ground (
      arith,
      v.decodings u,
      get_or-bump m.in_decoding_requests r.engine_url u,
      count-put_old decoding u m.active_requests h r new found,
    );
    distinct = Distinct-put m.active_requests h new v.distinct;
    fresh = λ j l. ground (
      arith,
      v.fresh j l,
      has-put m.active_requests h new j,
      has-of-get m.active_requests h r found,
      nat_eq.beq_iff h j,
    );
    latency = λ j q e.
        ground (arith, v.latency j q, v.latency h r found, get-put m.active_requests h new j);
    starts = λ j. ground (
      arith,
      v.starts j,
      has-put m.active_requests h new j,
      has-of-get m.active_requests h r found,
      nat_eq.beq_iff h j,
    );
  }
    where
      new : ActiveRequest
      new = record r { stage = decoding; first_token_time = some t }

  -- The state of `_finalize_request` between the pop and the counter.
  abbrev popped : Monitor
  popped = record m {
    active_requests = Dict.del m.active_requests h;
    request_start_time = Dict.del m.request_start_time h;
    first_token_time = Dict.del m.first_token_time h;
  }

  retired : Monitor
  retired = retire_count popped r

  retire_count-Inv : Inv retired
  unfolding retired
  retire_count-Inv =
      let same = retire_count-SameTables popped r in
      record {
        prefills = λ u.
            unfold retire_count in
            ground (
              arith,
              v.prefills u,
              get_or-drop_one m.in_prefill_requests r.engine_url u,
              active_counted,
              count-del prefill u m.active_requests h r v.distinct found,
            );
        decodings = λ u.
            unfold retire_count in
            ground (
              arith,
              v.decodings u,
              get_or-drop_one m.in_decoding_requests r.engine_url u,
              active_counted,
              count-del decoding u m.active_requests h r v.distinct found,
            );
        distinct = rw same.0 (Distinct-del m.active_requests h v.distinct);
        fresh = λ j l. rw same.0 (ground (arith, same.1, v.fresh j, has-del m.active_requests h j));
        latency =
            λ j q e. ground (arith, same.0, same.2, v.latency j q, get-del m.active_requests h j);
        starts = λ j. ground (
          arith,
          same.0,
          same.3,
          v.starts j,
          has-del m.active_requests h j,
          has-del m.request_start_time h j,
        );
      }

record_completion-Inv :
    (m : Monitor) (r : ActiveRequest) (t : ℕ) → Inv m → Inv (record_completion m r t).1
unfolding record_completion
record_completion-Inv m r t v = elim (Option-cases (Dict.get m.latency_monitors r.engine_url)) [
  | inl p ↦
      rw (p, record_completion)
        (record {
          prefills = v.prefills;
          decodings = v.decodings;
          distinct = v.distinct;
          fresh = v.fresh;
          latency = v.latency;
          starts = v.starts;
        })
  | inr (w, p) ↦
      rw (p, record_completion)
        (record {
          prefills = v.prefills;
          decodings = v.decodings;
          distinct = v.distinct;
          fresh = v.fresh;
          latency = λ h q e. ground (
            arith,
            v.latency h q e,
            has-put m.latency_monitors r.engine_url (Window.update w t (sub_ℕ t r.start_time))
                q.engine_url,
          );
          starts = v.starts;
        })
]

record_completion-returns :
    (m : Monitor) (r : ActiveRequest) (t : ℕ)
    → Dict.has m.latency_monitors r.engine_url ≡ true
    → (record_completion m r t).0 ≡ return tt
unfolding record_completion
record_completion-returns m r t h = ground (arith, has-get m.latency_monitors r.engine_url)

module _ (m : Monitor) (h t : ℕ) (completed : Bool) (v : Inv m) where
  pub finalize_request-Inv : Inv (finalize_request m h t completed).1
  unfolding finalize_request
  finalize_request-Inv = elim (Option-cases (Dict.get m.active_requests h)) [
    | inl p ↦ rw (p, finalize_request) v
    | inr (r, p) ↦ rw (p, finalize_request) (step r p completed)
  ]
    where
      step :
          (r : ActiveRequest) (p : Dict.get m.active_requests h ≡ some r) (b : Bool)
          → Inv
              (if b
                then record_completion (retire_count (popped m h r t v p) r) r t
                else (return tt, retire_count (popped m h r t v p) r)).1
      step r p true = record_completion-Inv _ r t (unfold retired in retire_count-Inv m h r t v p)
      step r p false = unfold retired in retire_count-Inv m h r t v p

  -- Retiring never meets the missing `latency_monitors` entry.
  pub finalize_request-returns : (finalize_request m h t completed).0 ≡ return tt
  unfolding finalize_request
  finalize_request-returns = elim (Option-cases (Dict.get m.active_requests h)) [
    | inl p ↦ rw (p, finalize_request)
    | inr (r, p) ↦ rw (p, finalize_request) (step r p completed)
  ]
    where
      step :
          (r : ActiveRequest) (p : Dict.get m.active_requests h ≡ some r) (b : Bool)
          → (if b
              then record_completion (retire_count (popped m h r t v p) r) r t
              else (return tt, retire_count (popped m h r t v p) r)).0
            ≡ return tt
      step r p true =
          record_completion-returns _ r t
            (rw (retire_count-SameTables (popped m h r t v p) r).2 (v.latency h r p))
      step r p false = refl

pub on_request_response-Inv : (m : Monitor) (h t : ℕ) → Inv m → Inv (on_request_response m h t)
unfolding on_request_response
on_request_response-Inv m h t v = elim (Option-cases (Dict.get m.active_requests h)) [
  | inl p ↦ rw (p, on_request_response) v
  | inr (r, p) ↦ rw (p, on_request_response) (step r p)
]
  where
    step :
        (r : ActiveRequest)
        → Dict.get m.active_requests h ≡ some r
        → Inv (
            if is_prefill r.stage
            then (if ltb 0 (Dict.get_or m.in_prefill_requests r.engine_url 0)
                then start_decoding m h r t
                else m)
            else m)
    step r p = elim (Bool-cases (is_prefill r.stage)) [
      | inl s ↦
          rw (s, lt→ltb _ _ (rw s at (active_counted m h r t v p)))
            (start_decoding-Inv m h r t v p s)
      | inr s ↦ rw s v
    ]
