-- ===== src/Routing/Factory/Single.antt =====
-- A reconfiguration leaves one router, or none, unless an old one cannot be closed.
use production_stack.Base.Names.{String, ◌≡◌, refl, Bool, true, false, Option, none, some, arith}
use production_stack.Base.Tests.{if◌then◌else◌}
use production_stack.Base.Json.{Fields, int, lookup}
use production_stack.Base.Int.{pos}
use production_stack.Base.Outcome.{Outcome, return, raise, Error, value_error}
use production_stack.Routing.Factory.{
  RouterClass, session_router, round_robin_router, kvaware_router, loadaware_router,
  prefix_aware_router, disaggregated_prefill_router, disaggregated_prefill_orchestrated_router,
  priority_router, router_classes, same_class, after_cleanup, class_of, Router, Registry,
  no_routers, given_or, constructor_arguments, construct, registered, of_class, instance_of,
  with_attempts, initialize_routing_logic, cleanup_routers, reconfigure_routing_logic, first_router,
  get_routing_logic,
}
use production_stack.Routing.Factory.Cleanup.{closes, Interrupted, cleanup_all, cleanup-stops}

-- The router is of the class, made with the class's arguments and, unless it is the orchestrated one,
-- with the attempts that were asked for. It is the only one that is registered, and the one that
-- `get_routing_logic` gives.
abbrev pub Sole : RouterClass → Fields → Outcome Router × Registry → Type 0
Sole c kwargs (answer, registry) =
    (router : Router) × (answer ≡ return router)
    × (router.class ≡ c)
    × (router.arguments ≡ constructor_arguments c kwargs)
    × (router.reroute_attempts ≡ (
        if same_class c disaggregated_prefill_orchestrated_router
        then none
        else some
            (given_or (int (pos 0)) (lookup kwargs "max_instance_failover_reroute_attempts"))))
    × ((d : RouterClass) → registry d ≡ (if same_class c d then some router else none))
    × (get_routing_logic registry ≡ return router)

-- An exception leaves no router at all.
abbrev pub Emptied : Error → Outcome Router × Registry → Type 0
Emptied e (answer, registry) =
    (answer ≡ raise e)
    × ((d : RouterClass) → registry d ≡ none)
    × (get_routing_logic registry ≡ raise value_error)

abbrev pub Constructed :
    RouterClass → Fields → Outcome (Unit {0}) → Outcome Router × Registry → Type 0
Constructed c kwargs (return u) result = Sole c kwargs result
Constructed c kwargs (raise e) result = Emptied e result

module _ (start_controller : Fields → Outcome (Unit {0})) where
  abbrev pub Made : Fields → Option RouterClass → Outcome Router × Registry → Type 0
  Made kwargs none result = Emptied value_error result
  Made kwargs (some c) result =
      Constructed c kwargs (construct start_controller c (constructor_arguments c kwargs)) result

  constructed :
      (c : RouterClass) (kwargs : Fields) (made : Outcome (Unit {0}))
      → Constructed c kwargs made (
          with_attempts kwargs (
            registered start_controller no_routers
              (record {
                class = c;
                arguments = constructor_arguments c kwargs;
                reroute_attempts = none;
              })
              made))
  unfolding with_attempts get_routing_logic first_router
  constructed c kwargs (raise e) = (refl, λ d. refl, refl)
  constructed session_router kwargs (return u) =
      (_, refl, refl, refl, refl, λ d. ground arith, refl)
  constructed round_robin_router kwargs (return u) =
      (_, refl, refl, refl, refl, λ d. ground arith, refl)
  constructed kvaware_router kwargs (return u) =
      (_, refl, refl, refl, refl, λ d. ground arith, refl)
  constructed loadaware_router kwargs (return u) =
      (_, refl, refl, refl, refl, λ d. ground arith, refl)
  constructed prefix_aware_router kwargs (return u) =
      (_, refl, refl, refl, refl, λ d. ground arith, refl)
  constructed disaggregated_prefill_router kwargs (return u) =
      (_, refl, refl, refl, refl, λ d. ground arith, refl)
  constructed disaggregated_prefill_orchestrated_router kwargs (return u) =
      (_, refl, refl, refl, refl, λ d. ground arith, refl)
  constructed priority_router kwargs (return u) =
      (_, refl, refl, refl, refl, λ d. ground arith, refl)

  of_class-Made :
      (kwargs : Fields) (c : Option RouterClass)
      → Made kwargs c (of_class start_controller no_routers kwargs c)
  unfolding instance_of get_routing_logic first_router of_class
  of_class-Made kwargs none = (refl, λ d. refl, refl)
  of_class-Made kwargs (some c) =
      constructed c kwargs (construct start_controller c (constructor_arguments c kwargs))

  -- What a reconfiguration gives, by whether all the routers that were registered can be closed.
  abbrev pub Reconfigured :
      (Router → Outcome (Unit {0}))
      → Registry
      → Fields
      → Option RouterClass
      → Bool
      → Outcome Router × Registry
      → Type 0
  Reconfigured close registry kwargs c true result = Made kwargs c result
  Reconfigured close registry kwargs c false (answer, left) =
      (e : Error) × (answer ≡ raise e) × Interrupted close registry (raise e) left

  stopped :
      (close : Router → Outcome (Unit {0})) (registry : Registry) (logic : String) (kwargs : Fields)
      (result : Outcome (Unit {0}) × Registry)
      → Interrupted close registry result.0 result.1
      → Reconfigured close registry kwargs
          (class_of logic)
          false
          (after_cleanup start_controller logic kwargs result)
  stopped close registry logic kwargs (return u, left) (e, c, router, q, p, r, h) =
      absurd (ground (arith, q))
  stopped close registry logic kwargs (raise e, left) h = (e, refl, h)

  -- Whatever routers were registered. Where all that have a `close` can be closed: if the routing
  -- logic is one that the program knows and its constructor does not raise, a reconfiguration gives a
  -- router of that logic's class, made with the given arguments, and leaves it as the only one; any
  -- other reconfiguration raises the constructor's exception, or ValueError for an unknown logic, and
  -- leaves no router. Where a router cannot be closed, the reconfiguration raises the exception of
  -- such a router, and leaves it registered.
  pub reconfigure_routing_logic-Made :
      (close : Router → Outcome (Unit {0})) (registry : Registry) (logic : String) (kwargs : Fields)
      → Reconfigured close registry kwargs
          (class_of logic)
          (closes close registry router_classes)
          (reconfigure_routing_logic start_controller close registry logic kwargs)
  unfolding reconfigure_routing_logic initialize_routing_logic
  reconfigure_routing_logic-Made close registry logic kwargs =
      by_closing (closes close registry router_classes) refl
    where
      by_closing :
          (b : Bool)
          → closes close registry router_classes ≡ b
          → Reconfigured close registry kwargs (class_of logic) b (
              after_cleanup start_controller logic kwargs
                (cleanup_routers close router_classes registry))
      by_closing true p = rw (cleanup_all close registry p) (of_class-Made kwargs (class_of logic))
      by_closing false p =
          stopped close registry logic kwargs (cleanup_routers close router_classes registry)
            (cleanup-stops close router_classes registry p)
