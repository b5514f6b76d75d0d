-- ===== src/Routing/Factory/Cleanup.antt =====
-- Which cleanups of the routers go through, and what they leave.
use mathlib.Core.Path.{fun_ext}
use production_stack.Base.Names.{
  ℕ, ◌≡◌, refl, sym, ap, ◌∙◌, subst, inl, inr, Bool, true, false, ◌&&◌, Option, none, some, List,
  [], ◌∷◌, arith,
}
use production_stack.Base.Tests.{nat_beq, nat_beq_iff, if◌then◌else◌, Bool-cases}
use production_stack.Base.Lists.{all, any}
use production_stack.Base.Outcome.{Outcome, is_return, return, raise, Error}
use production_stack.Routing.Factory.{
  RouterClass, session_router, round_robin_router, kvaware_router, loadaware_router,
  prefix_aware_router, disaggregated_prefill_router, disaggregated_prefill_orchestrated_router,
  priority_router, router_classes, class_number, same_class, forget, closed, close_held, close_at,
  after_close, Router, Registry, no_routers, cleanup_routers,
}

class_at : ℕ → RouterClass
class_at n =
    if nat_beq n 0
    then session_router
    else if nat_beq n 1
    then round_robin_router
    else if nat_beq n 2
    then kvaware_router
    else if nat_beq n 3
    then loadaware_router
    else if nat_beq n 4
    then prefix_aware_router
    else if nat_beq n 5
    then disaggregated_prefill_router
    else if nat_beq n 6
    then disaggregated_prefill_orchestrated_router
    else priority_router

class_at-class_number : (c : RouterClass) → class_at (class_number c) ≡ c
unfolding class_at
class_at-class_number session_router = refl
class_at-class_number round_robin_router = refl
class_at-class_number kvaware_router = refl
class_at-class_number loadaware_router = refl
class_at-class_number prefix_aware_router = refl
class_at-class_number disaggregated_prefill_router = refl
class_at-class_number disaggregated_prefill_orchestrated_router = refl
class_at-class_number priority_router = refl

same_class-eq : (c d : RouterClass) → same_class c d ≡ true → c ≡ d
same_class-eq c d h =
    sym (class_at-class_number c)
    ∙ ap class_at ((nat_beq_iff (class_number c) (class_number d)).0 h)
    ∙ class_at-class_number d

module _ (close : Router → Outcome (Unit {0})) where
  -- The routers of these classes, where there are any, can be closed.
  abbrev pub closes_at : Registry → RouterClass → Bool
  closes_at registry c = is_return (close_at close registry c)

  abbrev pub closes : Registry → List RouterClass → Bool
  closes registry cs = all (closes_at registry) cs

  closes_at-forget :
      (registry : Registry) (c d : RouterClass)
      → closes_at registry c ≡ true
      → closes_at (forget registry c) d ≡ closes_at registry d
  closes_at-forget registry c d h = elim (Bool-cases (same_class c d)) [
    | inl p ↦
        ap (λ b. is_return (close_held close (if b then none else registry d))) p
        ∙ sym (subst (λ x. closes_at registry x ≡ true) (same_class-eq c d p) h)
    | inr p ↦ ap (λ b. is_return (close_held close (if b then none else registry d))) p
  ]

  closes-forget :
      (registry : Registry) (c : RouterClass) (cs : List RouterClass)
      → closes_at registry c ≡ true
      → closes (forget registry c) cs ≡ closes registry cs
  closes-forget registry c [] h = refl
  closes-forget registry c (d ∷ cs) h =
      ap (λ b. b && closes (forget registry c) cs) (closes_at-forget registry c d h)
      ∙ ap (λ b. closes_at registry d && b) (closes-forget registry c cs h)

  abbrev among : RouterClass → List RouterClass → Bool
  among d cs = any (λ c. same_class c d) cs

  closed_step :
      (o : Outcome (Unit {0})) (registry : Registry) (c : RouterClass)
      (rest : Registry → Outcome (Unit {0}) × Registry)
      → is_return o ≡ true
      → after_close o registry c rest ≡ rest (forget registry c)
  closed_step (return u) registry c rest h = refl
  closed_step (raise e) registry c rest h = absurd (ground (arith, h))

  -- A cleanup that goes through.
  abbrev EmptiedBy : List RouterClass → Registry → Outcome (Unit {0}) × Registry → Type 0
  EmptiedBy cs registry result =
      (result.0 ≡ return tt)
      × ((d : RouterClass) → result.1 d ≡ (if among d cs then none else registry d))

  cleanup-closes :
      (cs : List RouterClass) (registry : Registry)
      → closes registry cs ≡ true
      → EmptiedBy cs registry (cleanup_routers close cs registry)
  unfolding cleanup_routers
  cleanup-closes [] registry h = (refl, λ d. refl)
  cleanup-closes (c ∷ cs) registry h =
      let here : closes_at registry c ≡ true = ground (arith, h) in
      let (done, left) =
        cleanup-closes cs (forget registry c)
          (closes-forget registry c cs here ∙ ground (arith, h)) in
      subst (EmptiedBy (c ∷ cs) registry)
        (sym (closed_step (close_at close registry c) registry c (cleanup_routers close cs) here))
        (done, λ d. left d ∙ ground arith)

  -- What an interrupted cleanup leaves: a router that did not close is registered still.
  abbrev pub Interrupted : Registry → Outcome (Unit {0}) → Registry → Type 0
  Interrupted registry o left =
      (e : Error) × (c : RouterClass) × (router : Router) × (o ≡ raise e)
      × (registry c ≡ some router)
      × (closed close router ≡ raise e)
      × (left c ≡ some router)

  forgotten :
      (registry : Registry) (c d : RouterClass) (router : Router)
      → forget registry c d ≡ some router
      → registry d ≡ some router
  forgotten registry c d router h = elim (Bool-cases (same_class c d)) [
    | inl p ↦ absurd (ground (arith, h, p))
    | inr p ↦ ground (arith, h, p)
  ]

  stopped_here :
      (registry : Registry) (c : RouterClass) (held : Option Router)
      (rest : Registry → Outcome (Unit {0}) × Registry)
      → registry c ≡ held
      → is_return (close_held close held) ≡ false
      → let result = after_close (close_held close held) registry c rest in
        Interrupted registry result.0 result.1
  stopped_here registry c none rest p h = absurd (ground (arith, h))
  stopped_here registry c (some router) rest p h = raised_by (closed close router) refl h
    where
      raised_by :
          (o : Outcome (Unit {0}))
          → closed close router ≡ o
          → is_return o ≡ false
          → Interrupted registry (after_close o registry c rest).0 (after_close o registry c rest).1
      raised_by (return u) q k = absurd (ground (arith, k))
      raised_by (raise e) q k = (e, c, router, refl, p, q, p)

  pub cleanup-stops :
      (cs : List RouterClass) (registry : Registry)
      → closes registry cs ≡ false
      → Interrupted registry
          (cleanup_routers close cs registry).0
          (cleanup_routers close cs registry).1
  unfolding cleanup_routers
  cleanup-stops [] registry h = absurd (ground (arith, h))
  cleanup-stops (c ∷ cs) registry h = elim (Bool-cases (closes_at registry c)) [
    | inl here ↦
        let (e, d, router, done, p, q, left) =
          cleanup-stops cs (forget registry c)
            (closes-forget registry c cs here ∙ ground (arith, h, here)) in
        subst (λ (result : Outcome (Unit {0}) × Registry). Interrupted registry result.0 result.1)
          (sym (closed_step (close_at close registry c) registry c (cleanup_routers close cs) here))
          (e, d, router, done, forgotten registry c d router p, q, left)
    | inr here ↦ stopped_here registry c (registry c) (cleanup_routers close cs) refl here
  ]

  pub cleanup_all :
      (registry : Registry)
      → closes registry router_classes ≡ true
      → cleanup_routers close router_classes registry ≡ (return tt, no_routers)
  cleanup_all registry h =
      let (done, left) = cleanup-closes router_classes registry h in
      pair (cleanup_routers close router_classes registry) done (fun_ext λ d. left d ∙ all_among d)
    where
      pair :
          (result : Outcome (Unit {0}) × Registry)
          → result.0 ≡ return tt
          → result.1 ≡ no_routers
          → result ≡ (return tt, no_routers)
      pair (o, left) p q = ap (λ x. (x, left)) p ∙ ap (λ x. (return tt, x)) q

      all_among : (d : RouterClass) → (if among d router_classes then none else registry d) ≡ none
      all_among session_router = refl
      all_among round_robin_router = refl
      all_among kvaware_router = refl
      all_among loadaware_router = refl
      all_among prefix_aware_router = refl
      all_among disaggregated_prefill_router = refl
      all_among disaggregated_prefill_orchestrated_router = refl
      all_among priority_router = refl
