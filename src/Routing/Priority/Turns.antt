-- ===== src/Routing/Priority/Turns.antt =====
-- The rotation of the priority router: urgent requests in between do not disturb it.
use production_stack.Base.Names.{
  ℕ, zero, suc, ◌+◌, ◌<◌, String, ◌≡◌, refl, ap, ◌∙◌, subst, Bool, true, false, List, [], ◌∷◌,
  arith,
}
use production_stack.Base.Tests.{if◌then◌else◌}
use production_stack.Base.Eq.{string_eq, list_eq, contains}
use production_stack.Base.Lists.{length, all}
use production_stack.Base.Int.{ltb_ℤ}
use production_stack.Base.Float.{Float}
use production_stack.Base.Sort.{sorted, contains-sort_by, length-sort_by}
use production_stack.Base.Text.{str_leb}
use production_stack.Base.Dict
use production_stack.Base.Dict.{Dict, get_or-put_self}
use production_stack.Base.Json.{Fields}
use production_stack.Base.Outcome.{return}
use production_stack.Endpoint.{EndpointInfo, urls}
use production_stack.Stats.Monitor.Report.{RequestStats}
use production_stack.Routing.Session.{Headers}
use production_stack.Routing.Rotation.{pick, pick_covers}
use production_stack.Routing.Priority.{
  PriorityRouter, extract_priority, body_priority, route_request,
}

module _ (float : Float) where
  open float use {F}

  -- One request, with the figures of its moment.
  pub record Call : Type 0 where
    pub stats : Dict String (RequestStats F)
    pub headers : Headers
    pub body : Fields

  -- More important than the threshold.
  abbrev pub is_urgent : PriorityRouter → Call → Bool
  is_urgent r call = ltb_ℤ (extract_priority r call.headers call.body) r.priority_threshold

  -- An ordinary request, with the urgent ones that come before it.
  pub record Round : Type 0 where
    pub before : List Call
    pub call : Call

  module _ (r : PriorityRouter) (e : EndpointInfo) (es : List EndpointInfo) where
    abbrev route : PriorityRouter → Call → PriorityRouter
    route s call = (route_request float s (e ∷ es) call.stats call.headers call.body).1

    unfoldable pub after_calls : PriorityRouter → List Call → PriorityRouter
    after_calls s [] = s
    after_calls s (call ∷ calls) = after_calls (route s call) calls

    -- The router behind the first `n` rounds.
    unfoldable pub after_rounds : ℕ → (ℕ → Round) → PriorityRouter
    unfolding after_calls
    after_rounds zero rounds = r
    after_rounds (suc n) rounds =
        route (after_calls (after_rounds n rounds) (rounds n).before) (rounds n).call

    abbrev key : List String
    key = sorted (urls (e ∷ es))

    abbrev settled : Dict (List String) ℕ → Bool → PriorityRouter
    settled table warned = record r { next_index = table; warned_scheduling_policy = warned }

    -- A router with the settings of `r`, whose rotation has come to an index.
    abbrev At : ℕ → PriorityRouter → Type 0
    At n s =
        (table : Dict (List String) ℕ) × (warned : Bool) × (s ≡ settled table warned)
        × (Dict.get_or table key 0 ≡ n)

    -- The router behind a call, by whether it was urgent.
    abbrev moved : PriorityRouter → Bool → PriorityRouter
    moved s true = record s { warned_scheduling_policy = true }
    moved s false = record s {
      next_index = Dict.put s.next_index key (Dict.get_or s.next_index key 0 + 1);
      warned_scheduling_policy = true;
    }

    if_moved :
        {A : Type 0} {B : Type 0} (s : PriorityRouter) (b : Bool) (x y : A) (z w : B)
        → let answer : A × PriorityRouter × B =
            if b then (x, moved s true, z) else (y, moved s false, w) in
          answer.1 ≡ moved s b
    if_moved s true x y z w = refl
    if_moved s false x y z w = refl

    route-moved : (s : PriorityRouter) (call : Call) → route s call ≡ moved s (is_urgent s call)
    unfolding route_request
    route-moved s call = if_moved s (is_urgent s call) _ _ _ _

    urgent-At :
        (n : ℕ) (s : PriorityRouter) (call : Call)
        → is_urgent r call ≡ true
        → At n s
        → At n (route s call)
    unfolding route_request extract_priority body_priority
    urgent-At n s call u (table, warned, p, q) = (
      table,
      true,
      ap (λ x. route x call) p
          ∙ route-moved (settled table warned) call
          ∙ ap (moved (settled table warned)) u,
      q,
    )

    ordinary-At :
        (n : ℕ) (s : PriorityRouter) (call : Call)
        → is_urgent r call ≡ false
        → At n s
        → At (n + 1) (route s call)
    unfolding route_request extract_priority body_priority
    ordinary-At n s call u (table, warned, p, q) = (
      Dict.put table key (Dict.get_or table key 0 + 1),
      true,
      ap (λ x. route x call) p
          ∙ route-moved (settled table warned) call
          ∙ ap (moved (settled table warned)) u,
      get_or-put_self table key (Dict.get_or table key 0 + 1) 0 ∙ ap (λ k. k + 1) q,
    )

    urgent_calls-At :
        (n : ℕ) (s : PriorityRouter) (calls : List Call)
        → all (is_urgent r) calls ≡ true
        → At n s
        → At n (after_calls s calls)
    unfolding after_calls
    urgent_calls-At n s [] u a = a
    urgent_calls-At n s (call ∷ calls) u a =
        urgent_calls-At n (route s call) calls (ground (arith, u))
          (urgent-At n s call (ground (arith, u)) a)

    rounds-At :
        (n : ℕ) (rounds : ℕ → Round)
        → ((k : ℕ) → all (is_urgent r) (rounds k).before ≡ true)
        → ((k : ℕ) → is_urgent r (rounds k).call ≡ false)
        → At (Dict.get_or r.next_index key 0 + n) (after_rounds n rounds)
    unfolding after_rounds
    rounds-At zero rounds u o = (r.next_index, r.warned_scheduling_policy, refl, omega arith)
    rounds-At (suc n) rounds u o =
        let here : ℕ = Dict.get_or r.next_index key 0 + n in
        let step : here + 1 ≡ Dict.get_or r.next_index key 0 + suc n = omega arith in
        subst (λ k. At k (after_rounds (suc n) rounds)) step
          (ordinary-At here (after_calls (after_rounds n rounds) (rounds n).before) (rounds n).call
            (o n)
            (urgent_calls-At here (after_rounds n rounds) (rounds n).before (u n)
              (rounds-At n rounds u o)))

    picked :
        (n : ℕ) (s : PriorityRouter) (call : Call)
        → is_urgent r call ≡ false
        → At n s
        → (route_request float s (e ∷ es) call.stats call.headers call.body).0 ≡ pick key n
    unfolding route_request extract_priority body_priority
    picked n s call o (table, warned, p, q) =
        ap (λ x. (route_request float x (e ∷ es) call.stats call.headers call.body).0) p
        ∙ rw o (ap (pick key) q)

    -- Fairness: while the endpoints stay the same and there is at least one, of any sequence of
    -- requests that are not more important than the threshold, each endpoint is the answer to one of
    -- the first `n`, where `n` is the number of endpoints. However many urgent requests come before
    -- each of them, and whatever the figures, headers and bodies are, urgent ones take no turn.
    pub ordinary_requests_cover :
        (rounds : ℕ → Round) (u : String)
        → ((k : ℕ) → all (is_urgent r) (rounds k).before ≡ true)
        → ((k : ℕ) → is_urgent r (rounds k).call ≡ false)
        → contains (urls (e ∷ es)) u ≡ true
        → (i : ℕ) × (i < length (urls (e ∷ es)))
          × ((route_request float
                (after_calls (after_rounds i rounds) (rounds i).before)
                (e ∷ es)
                (rounds i).call.stats
                (rounds i).call.headers
                (rounds i).call.body).0
              ≡ return u)
    ordinary_requests_cover rounds u before after h =
        let (i, l, p) =
          pick_covers key (Dict.get_or r.next_index key 0) u
            (contains-sort_by str_leb (urls (e ∷ es)) u ∙ h) in
        (
          i,
          omega (arith, l, length-sort_by str_leb (urls (e ∷ es))),
          picked (Dict.get_or r.next_index key 0 + i)
                (after_calls (after_rounds i rounds) (rounds i).before) (rounds i).call (after i)
                (urgent_calls-At (Dict.get_or r.next_index key 0 + i) (after_rounds i rounds)
                  (rounds i).before (before i) (rounds-At i rounds before after))
              ∙ p,
        )
