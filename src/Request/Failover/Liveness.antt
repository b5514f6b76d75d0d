-- ===== src/Request/Failover/Liveness.antt =====
-- The attempts loop reaches an engine that answers.
use production_stack.Base.Names.{
  ℕ, zero, suc, ◌≤◌, String, ◌≡◌, refl, sym, ap, ◌∙◌, ◌⊎◌, inl, inr, Bool, true, false, List, [],
  ◌∷◌, arith,
}
use production_stack.Base.Tests.{Bool-cases}
use production_stack.Base.Eq.{◌==◌, string_eq, contains}
use production_stack.Base.Lists.{length}
use production_stack.Endpoint.{EndpointInfo, urls}
use production_stack.Request.Failover.{
  Router, Attempt, headers, http_error, connect_error, timeout, other_failure, Backend, Reply,
  streaming, Failure, connect, other, without, choose_server, retries, send,
}
use production_stack.Request.Failover.Attempts.{
  RouterLaws, List-cases, contains-without, length-without, chosen_return, choose_server-mem,
}

-- An answer, or a failure after which the loop goes on.
abbrev pub goes_on : Attempt → Bool
goes_on (headers status) = true
goes_on connect_error = true
goes_on (other_failure e) = true
goes_on _ = false

-- The reply is the answer that one of the engines gave to one of the attempts.
abbrev pub Answered : Backend → List EndpointInfo → Reply → Type 0
Answered backend endpoints reply =
    (k : ℕ) × (u : String) × (status : ℕ) × (reply ≡ streaming status u)
    × (backend k u ≡ headers status)
    × (contains (urls endpoints) u ≡ true)

length-without-nil : (es : List EndpointInfo) → length (without [] es) ≡ length es
unfolding without contains
length-without-nil [] = refl
length-without-nil (e ∷ es) = omega (arith, length-without-nil es)

Attempt-cases :
    (a : Attempt)
    → goes_on a ≡ true
    → ((status : ℕ) × (a ≡ headers status))
      ⊎ (((e : String) × (a ≡ other_failure e)) ⊎ (a ≡ connect_error))
Attempt-cases (headers status) h = inl (status, refl)
Attempt-cases (http_error status d) h = absurd (ground (arith, h))
Attempt-cases connect_error h = inr (inr refl)
Attempt-cases timeout h = absurd (ground (arith, h))
Attempt-cases (other_failure e) h = inr (inl (e, refl))

module _ (router : Router) (laws : RouterLaws router) (backend : Backend) where
  open router use {State}
  open laws use {Valid}

  module _ (endpoints : List EndpointInfo) (pinned : Bool) (good : String)
      (known : contains (urls endpoints) good ≡ true)
      (answers : (k : ℕ) → (status : ℕ) × (backend k good ≡ headers status))
      (soft : (k : ℕ) (u : String) → goes_on (backend k u) ≡ true) where
    -- While the good engine has not been tried, there is an engine to try.
    some_left :
        (errs : List String)
        → contains errs good ≡ false
        → (e : EndpointInfo) × (es : List EndpointInfo) × (without errs endpoints ≡ e ∷ es)
    unfolding contains
    some_left errs fresh = elim (List-cases (without errs endpoints)) [
      | inl p ↦ absurd (
          ground (
            arith,
            contains-without errs endpoints good,
            ap (λ l. contains (urls l) good) p,
            known,
            fresh,
          ))
      | inr q ↦ q
    ]

    -- An engine that fails is not the good one.
    still_fresh :
        (k : ℕ) (u : String) (errs : List String)
        → ((status : ℕ) → backend k u ≡ headers status → ⊥)
        → contains errs good ≡ false
        → contains (u ∷ errs) good ≡ false
    unfolding contains
    still_fresh k u errs failed fresh = elim (Bool-cases (u == good)) [
      | inl p ↦
          absurd
            (failed (answers k).0 (ap (backend k) ((string_eq.beq_iff u good).0 p) ∙ (answers k).1))
      | inr p ↦ rw p fresh
    ]

    retries-Answered :
        (n k : ℕ) (s : State) (errs : List String) (f : Failure)
        → Valid s
        → contains errs good ≡ false
        → length (without errs endpoints) ≤ n
        → Answered backend endpoints (retries router backend endpoints pinned n k s errs f).reply
    unfolding retries contains
    retries-Answered zero k s errs f v fresh room =
        let (e, es, p) = some_left errs fresh in absurd (omega (arith, room, ap length p))
    retries-Answered (suc n) k s errs f v fresh room =
        let (e, es, p) = some_left errs fresh in
        let (u, q, c, v') = choose_server-mem router laws backend pinned s e es v in
        let c' : contains (urls (without errs endpoints)) u ≡ true =
          ap (λ l. contains (urls l) u) p ∙ c in
        rw (p, retries, chosen_return (choose_server router backend pinned s e es) u errs _ q)
          (elim (Attempt-cases (backend k u) (soft k u)) [
            | inl (status, a) ↦
                rw a (k, u, status, refl, a, ground (arith, c', contains-without errs endpoints u))
            | inr (inl (x, a)) ↦ rw a (
                retries-Answered n (suc k) _ (u ∷ errs) (other x) v'
                  (still_fresh k u errs (λ status b. ground (arith, sym a ∙ b)) fresh)
                  (omega (arith, room, length-without errs endpoints u c')))
            | inr (inr a) ↦ rw a (
                retries-Answered n (suc k) _ (u ∷ errs) connect v'
                  (still_fresh k u errs (λ status b. ground (arith, sym a ∙ b)) fresh)
                  (omega (arith, room, length-without errs endpoints u c')))
          ])

  -- Failover reaches a live engine: with a policy that in a valid state chooses among the engines
  -- that it is given, where one of the candidates answers whenever it is asked, no attempt fails
  -- in a way that ends the loop, and the configured reroutes suffice to ask every candidate, the
  -- client gets the answer of an engine, on whichever attempt.
  pub send-Answered :
      (pinned : Bool) (reroutes : ℕ) (s : State) (e : EndpointInfo) (es : List EndpointInfo)
      (good : String)
      → Valid s
      → contains (urls (e ∷ es)) good ≡ true
      → ((k : ℕ) → (status : ℕ) × (backend k good ≡ headers status))
      → ((k : ℕ) (u : String) → goes_on (backend k u) ≡ true)
      → length es ≤ reroutes
      → Answered backend (e ∷ es) (send router backend pinned reroutes s e es).reply
  unfolding send contains
  send-Answered pinned reroutes s e es good v known answers soft room =
      let (u, q, c, v') = choose_server-mem router laws backend pinned s e es v in
      let left : length (without (u ∷ []) (e ∷ es)) ≤ reroutes = omega (
        arith,
        room,
        length-without-nil (e ∷ es),
        length-without [] (e ∷ es) u (ground (arith, c, contains-without [] (e ∷ es) u)),
      ) in
      let next : (f : Failure) → ((status : ℕ) → backend 0 u ≡ headers status → ⊥) → _ = λ f failed.
        retries-Answered (e ∷ es) pinned good known answers soft reroutes 1
          (choose_server router backend pinned s e es).1 (u ∷ []) f v'
          (still_fresh (e ∷ es) pinned good known answers soft 0 u [] failed refl) left in
      rw (chosen_return (choose_server router backend pinned s e es) u [] _ q)
        (elim (Attempt-cases (backend 0 u) (soft 0 u)) [
          | inl (status, a) ↦ rw a (0, u, status, refl, a, c)
          | inr (inl (x, a)) ↦ rw a (next (other x) (λ status b. ground (arith, sym a ∙ b)))
          | inr (inr a) ↦ rw a (next connect (λ status b. ground (arith, sym a ∙ b)))
        ])
