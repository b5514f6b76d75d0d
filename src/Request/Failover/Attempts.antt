-- ===== src/Request/Failover/Attempts.antt =====
-- Which engines the attempts loop tries, and that it finds one that answers.
use production_stack.Base.Names.{
  ℕ, zero, suc, ◌+◌, ◌≤◌, ◌<◌, String, ◌≡◌, refl, ap, ◌∙◌, ◌⊎◌, inl, inr, Bool, true, false, not,
  ◌&&◌, List, [], ◌∷◌, arith,
}
use production_stack.Base.Eq.{string_eq, contains}
use production_stack.Base.Lists.{length, Distinct}
use production_stack.Base.Outcome.{Outcome, return, raise}
use production_stack.Endpoint.{EndpointInfo, urls}
use production_stack.Request.Failover.{
  Router, Attempt, headers, http_error, connect_error, timeout, other_failure, Backend, Failure,
  connect, other, Run, settle, chosen, without, choose_server, retries, send,
}

-- What the loop needs of a policy: while its state is valid, a choice among some engines is the URL
-- of one of them, and leaves a valid state.
pub record RouterLaws (router : Router) : Type 1 where
  pub Valid : router.State → Type 0
  pub route-mem :
      (s : router.State) (e : EndpointInfo) (es : List EndpointInfo)
      → Valid s
      → (u : String) × ((router.route s (e ∷ es)).0 ≡ return u)
        × (contains (urls (e ∷ es)) u ≡ true)
        × Valid (router.route s (e ∷ es)).1

pub List-cases {ℓ} :
    {A : Type ℓ} (xs : List A) → (xs ≡ []) ⊎ ((x : A) × (rest : List A) × (xs ≡ x ∷ rest))
List-cases [] = inl refl
List-cases (x ∷ xs) = inr (x, xs, refl)

pub contains-without :
    (errs : List String) (es : List EndpointInfo) (u : String)
    → contains (urls (without errs es)) u ≡ (contains (urls es) u && not (contains errs u))
unfolding without contains
contains-without errs [] u = refl
contains-without errs (e ∷ es) u =
    ground (arith, contains-without errs es u, string_eq.beq_iff e.url u)

without-le :
    (errs : List String) (es : List EndpointInfo) (u : String)
    → length (without (u ∷ errs) es) ≤ length (without errs es)
unfolding without contains
without-le errs [] u = omega arith
without-le errs (e ∷ es) u = ground (arith, without-le errs es u)

pub length-without :
    (errs : List String) (es : List EndpointInfo) (u : String)
    → contains (urls (without errs es)) u ≡ true
    → length (without (u ∷ errs) es) < length (without errs es)
unfolding without contains
length-without errs [] u h = absurd (ground arith)
length-without errs (e ∷ es) u h = ground (
  arith,
  length-without errs es u,
  without-le errs es u,
  string_eq.beq_iff u e.url,
  string_eq.beq_iff e.url u,
)

-- What holds of the attempt's own URL and of each retry holds of the attempt.
settle-tried :
    {S : Type 0} (P : List String → Type 0) (a : Attempt) (url : String) (errs : List String)
    (s : S) (retry : Failure → Run S)
    → P (url ∷ errs)
    → ((f : Failure) → P (retry f).tried)
    → P (settle a url errs s retry).tried
settle-tried P (headers status) url errs s retry h k = h
settle-tried P (http_error status detail) url errs s retry h k = h
settle-tried P connect_error url errs s retry h k = k connect
settle-tried P timeout url errs s retry h k = h
settle-tried P (other_failure e) url errs s retry h k = k (other e)

pub chosen_return :
    {S : Type 0} (o : Outcome String × S) (u : String) (tried : List String)
    (use_server : String → S → Run S)
    → o.0 ≡ return u
    → chosen o tried use_server ≡ use_server u o.1
chosen_return (return w, s) u tried use_server h = ap (λ x. use_server x s) (ground (arith, h))
chosen_return (raise e, s) u tried use_server h = absurd (ground (arith, h))

-- Distinct URLs of known engines, at most `n` of them.
abbrev TriedWell : List EndpointInfo → ℕ → List String → Type 0
TriedWell endpoints n tried =
    Distinct tried
    × (length tried ≤ n)
    × ((u : String) → contains tried u ≡ true → contains (urls endpoints) u ≡ true)

TriedWell-le :
    (endpoints : List EndpointInfo) (m n : ℕ) (tried : List String)
    → m ≤ n
    → TriedWell endpoints m tried
    → TriedWell endpoints n tried
TriedWell-le endpoints m n tried h (d, l, sub) = (d, omega (arith, l, h), sub)

-- One more attempt on an engine that has not failed.
TriedWell-cons :
    (endpoints : List EndpointInfo) (n : ℕ) (errs : List String) (u : String)
    → TriedWell endpoints n errs
    → contains (urls (without errs endpoints)) u ≡ true
    → TriedWell endpoints (suc n) (u ∷ errs)
unfolding contains
TriedWell-cons endpoints n errs u (d, l, sub) h = (
  (ground (arith, contains-without errs endpoints u), d),
  omega (arith, l),
  λ a k. ground (arith, sub a, contains-without errs endpoints u, string_eq.beq_iff u a),
)

module _ (router : Router) (laws : RouterLaws router) (backend : Backend) where
  open router use {State}
  open laws use {Valid, route-mem}

  -- The engine of an attempt is one of those that it is chosen from.
  pub choose_server-mem :
      (pinned : Bool) (s : State) (e : EndpointInfo) (es : List EndpointInfo)
      → Valid s
      → (u : String) × ((choose_server router backend pinned s e es).0 ≡ return u)
        × (contains (urls (e ∷ es)) u ≡ true)
        × Valid (choose_server router backend pinned s e es).1
  unfolding choose_server contains
  choose_server-mem true s e es v = (e.url, refl, ground (arith, string_eq.beq_iff e.url e.url), v)
  choose_server-mem false s e es v = route-mem s e es v

  retries-tried :
      (endpoints : List EndpointInfo) (pinned : Bool) (n k m : ℕ) (s : State) (errs : List String)
      (f : Failure)
      → Valid s
      → TriedWell endpoints m errs
      → TriedWell endpoints (m + n) (retries router backend endpoints pinned n k s errs f).tried
  unfolding retries
  retries-tried endpoints pinned zero k m s errs f v (d, l, sub) = (d, omega (arith, l), sub)
  retries-tried endpoints pinned (suc n) k m s errs f v (d, l, sub) =
      elim (List-cases (without errs endpoints)) [
        | inl p ↦ rw (p, retries) (d, omega (arith, l), sub)
        | inr (e, es, p) ↦
            let (u, q, c, v') = choose_server-mem pinned s e es v in
            let next : TriedWell endpoints (suc m) (u ∷ errs) =
              TriedWell-cons endpoints m errs u (d, l, sub) (ap (λ l. contains (urls l) u) p ∙ c) in
            rw (p, retries, chosen_return (choose_server router backend pinned s e es) u errs _ q)
              (settle-tried (TriedWell endpoints (m + suc n)) (backend k u) u errs _ _
                (next.0, omega (arith, next.1), next.2)
                (λ g.
                  TriedWell-le endpoints (suc m + n) (m + suc n) _ (omega arith)
                    (retries-tried endpoints pinned n (suc k) (suc m) _ (u ∷ errs) g v' next)))
      ]

  -- However the engines answer, with a policy that in a valid state chooses among the engines that
  -- it is given: the engines that one request tries are distinct, they are among the candidates,
  -- and there are at most one more than the configured number of reroutes.
  pub send-tried :
      (pinned : Bool) (reroutes : ℕ) (s : State) (e : EndpointInfo) (es : List EndpointInfo)
      → Valid s
      → let tried = (send router backend pinned reroutes s e es).tried in
        Distinct tried
        × (length tried ≤ reroutes + 1)
        × ((u : String) → contains tried u ≡ true → contains (urls (e ∷ es)) u ≡ true)
  unfolding send contains
  send-tried pinned reroutes s e es v =
      let (u, q, c, v') = choose_server-mem pinned s e es v in
      let next : TriedWell (e ∷ es) 1 (u ∷ []) =
        ((refl, tt), omega arith, λ a h. ground (arith, h, c, string_eq.beq_iff u a)) in
      rw (chosen_return (choose_server router backend pinned s e es) u [] _ q) (
        settle-tried (TriedWell (e ∷ es) (reroutes + 1)) (backend 0 u) u [] _ _
          (next.0, omega arith, next.2)
          (λ g.
            TriedWell-le (e ∷ es) (1 + reroutes) (reroutes + 1) _ (omega arith)
              (retries-tried (e ∷ es) pinned reroutes 1 1 _ (u ∷ []) g v' next)))
