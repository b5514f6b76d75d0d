-- ===== src/Routing/Factory.antt =====
-- The making of routers at the end of src/vllm_router/routers/routing_logic.py, and the registry of
-- `SingletonABCMeta` of src/vllm_router/utils.py that it works on. A router is kept with its class and
-- the arguments of its constructor. Whether the routers with an LMCache controller can be made, with
-- the weight that LoadAwareRouter may take from its environment, and how closing a router ends, are
-- arguments.
pub mod Cleanup
pub mod Single
use production_stack.Base.Names.{ℕ, String, Bool, true, false, Option, none, some, List, [], ◌∷◌}
use production_stack.Base.Tests.{nat_beq, if◌then◌else◌}
use production_stack.Base.Eq.{◌==◌, string_eq}
use production_stack.Base.Int.{pos}
use production_stack.Base.Json.{Json, Fields, null, int, str, end, field, lookup}
use production_stack.Base.Outcome.{Outcome, return, raise, value_error}

pub data RouterClass : Type 0 where
  session_router round_robin_router kvaware_router loadaware_router : RouterClass
  prefix_aware_router disaggregated_prefill_router : RouterClass
  disaggregated_prefill_orchestrated_router priority_router : RouterClass

-- The classes in the order in which `get_routing_logic` and `cleanup_routing_logic` go through them.
abbrev pub router_classes : List RouterClass
router_classes =
    session_router ∷ round_robin_router ∷ kvaware_router ∷ loadaware_router ∷ prefix_aware_router
    ∷ disaggregated_prefill_router ∷ disaggregated_prefill_orchestrated_router ∷ priority_router
    ∷ []

abbrev pub class_number : RouterClass → ℕ
class_number session_router = 0
class_number round_robin_router = 1
class_number kvaware_router = 2
class_number loadaware_router = 3
class_number prefix_aware_router = 4
class_number disaggregated_prefill_router = 5
class_number disaggregated_prefill_orchestrated_router = 6
class_number priority_router = 7

abbrev pub same_class : RouterClass → RouterClass → Bool
same_class a b = nat_beq (class_number a) (class_number b)

-- `RoutingLogic`: the class that a name stands for.
unfoldable pub class_of : String → Option RouterClass
class_of logic =
    if logic == "roundrobin"
    then some round_robin_router
    else if logic == "session"
    then some session_router
    else if logic == "kvaware"
    then some kvaware_router
    else if logic == "loadaware"
    then some loadaware_router
    else if logic == "prefixaware"
    then some prefix_aware_router
    else if logic == "disaggregated_prefill"
    then some disaggregated_prefill_router
    else if logic == "disaggregated_prefill_orchestrated"
    then some disaggregated_prefill_orchestrated_router
    else if logic == "priority"
    then some priority_router
    else none

-- `max_instance_failover_reroute_attempts` where it has been set.
pub record Router : Type 0 where
  pub class : RouterClass
  pub arguments : Fields
  pub reroute_attempts : Option Json

-- `SingletonABCMeta._instances`
abbrev pub Registry : Type 0
Registry = RouterClass → Option Router

abbrev pub no_routers : Registry
no_routers c = none

abbrev pub with_router : Registry → Router → Registry
with_router registry router c = if same_class router.class c then some router else registry c

-- kwargs.get(name, default)
abbrev pub given_or : Json → Option Json → Json
given_or default none = default
given_or default (some v) = v

abbrev one : Fields → String → Json → Fields → Fields
one kwargs name default rest = field name (given_or default (lookup kwargs name)) rest

abbrev controller_arguments : Fields → Fields → Fields
controller_arguments kwargs rest = one kwargs "lmcache_controller_port" null (
    one kwargs "session_key" null (
      one kwargs "kv_aware_threshold" null (
        one kwargs "lmcache_health_check_interval" null (
          one kwargs "lmcache_worker_timeout" null (
            one kwargs "lmcache_controller_reply_port" null
              (one kwargs "lmcache_controller_heartbeat_port" null rest))))))

-- The arguments that a constructor is called with.
unfoldable pub constructor_arguments : RouterClass → Fields → Fields
constructor_arguments round_robin_router kwargs = end
constructor_arguments session_router kwargs = one kwargs "session_key" null end
constructor_arguments kvaware_router kwargs = controller_arguments kwargs end
constructor_arguments loadaware_router kwargs =
    controller_arguments kwargs (one kwargs "loadaware_beta" null end)
constructor_arguments prefix_aware_router kwargs =
    one kwargs "prefix_min_match_length" (int (pos 0)) end
constructor_arguments disaggregated_prefill_router kwargs =
    one kwargs "prefill_model_labels" null (one kwargs "decode_model_labels" null end)
constructor_arguments disaggregated_prefill_orchestrated_router kwargs =
    one kwargs "prefill_model_labels" null (one kwargs "decode_model_labels" null end)
constructor_arguments priority_router kwargs =
    one kwargs "priority_header" (str "x-request-priority") (
      one kwargs "priority_field" (str "priority")
        (one kwargs "priority_default" (int (pos 0)) (one kwargs "priority_threshold" null end)))

abbrev session_key_given : Option Json → Outcome (Unit {0})
session_key_given none = raise value_error
session_key_given (some null) = raise value_error
session_key_given (some v) = return tt

-- The orchestrated router is given back before the number of attempts is set.
unfoldable pub with_attempts : Fields → Outcome Router × Registry → Outcome Router × Registry
with_attempts kwargs (raise e, registry) = (raise e, registry)
with_attempts kwargs (return router, registry) =
    let limited = record router {
      reroute_attempts =
          some (given_or (int (pos 0)) (lookup kwargs "max_instance_failover_reroute_attempts"));
    } in
    if same_class router.class disaggregated_prefill_orchestrated_router
    then (return router, registry)
    else (return limited, with_router registry limited)

abbrev pub forget : Registry → RouterClass → Registry
forget registry c d = if same_class c d then none else registry d

-- The classes that have a `close`.
abbrev pub has_close : RouterClass → Bool
has_close kvaware_router = true
has_close loadaware_router = true
has_close _ = false

-- `instance.close()` gives back how the task of the LMCache controller has ended: the cancellation is
-- caught there, and the exception of a start that failed is raised again.
abbrev pub closed : (Router → Outcome (Unit {0})) → Router → Outcome (Unit {0})
closed close router = if has_close router.class then close router else return tt

-- One class of the loop of `cleanup_routing_logic`: a class without a router has nothing to close.
abbrev pub close_held : (Router → Outcome (Unit {0})) → Option Router → Outcome (Unit {0})
close_held close none = return tt
close_held close (some router) = closed close router

abbrev pub close_at : (Router → Outcome (Unit {0})) → Registry → RouterClass → Outcome (Unit {0})
close_at close registry c = close_held close (registry c)

-- An exception ends the loop with the router still registered.
abbrev pub after_close :
    Outcome (Unit {0})
    → Registry
    → RouterClass
    → (Registry → Outcome (Unit {0}) × Registry)
    → Outcome (Unit {0}) × Registry
after_close (return u) registry c rest = rest (forget registry c)
after_close (raise e) registry c rest = (raise e, registry)

unfoldable pub cleanup_routers :
    (Router → Outcome (Unit {0})) → List RouterClass → Registry → Outcome (Unit {0}) × Registry
cleanup_routers close [] registry = (return tt, registry)
cleanup_routers close (c ∷ cs) registry =
    after_close (close_at close registry c) registry c (cleanup_routers close cs)

unfoldable pub first_router : List RouterClass → Registry → Outcome Router
first_router [] registry = raise value_error
first_router (c ∷ cs) registry = elim (registry c) [
  | some router ↦ return router
  | none ↦ first_router cs registry
]

unfoldable pub get_routing_logic : Registry → Outcome Router
unfolding first_router
get_routing_logic registry = first_router router_classes registry

module _ (start_controller : Fields → Outcome (Unit {0})) where
  -- The checks of the constructors.
  unfoldable pub construct : RouterClass → Fields → Outcome (Unit {0})
  construct session_router arguments = session_key_given (lookup arguments "session_key")
  construct kvaware_router arguments = start_controller arguments
  construct loadaware_router arguments = start_controller arguments
  construct _ arguments = return tt

  abbrev pub registered : Registry → Router → Outcome (Unit {0}) → Outcome Router × Registry
  registered registry router (raise e) = (raise e, registry)
  registered registry router (return u) = (return router, with_router registry router)

  -- cls(...): an instance that is there is given back as it is.
  unfoldable pub instance_of : Registry → RouterClass → Fields → Outcome Router × Registry
  unfolding construct
  instance_of registry c arguments = elim (registry c) [
    | some router ↦ (return router, registry)
    | none ↦
        registered registry (record { class = c; arguments = arguments; reroute_attempts = none })
          (construct c arguments)
  ]

  unfoldable pub of_class : Registry → Fields → Option RouterClass → Outcome Router × Registry
  unfolding with_attempts instance_of constructor_arguments
  of_class registry kwargs none = (raise value_error, registry)
  of_class registry kwargs (some c) =
      with_attempts kwargs (instance_of registry c (constructor_arguments c kwargs))

  unfoldable pub initialize_routing_logic : Registry → String → Fields → Outcome Router × Registry
  unfolding class_of of_class
  initialize_routing_logic registry logic kwargs = of_class registry kwargs (class_of logic)

  abbrev pub after_cleanup :
      String → Fields → Outcome (Unit {0}) × Registry → Outcome Router × Registry
  after_cleanup logic kwargs (raise e, registry) = (raise e, registry)
  after_cleanup logic kwargs (return u, registry) = initialize_routing_logic registry logic kwargs

  unfoldable pub reconfigure_routing_logic :
      (Router → Outcome (Unit {0})) → Registry → String → Fields → Outcome Router × Registry
  unfolding initialize_routing_logic cleanup_routers
  reconfigure_routing_logic close registry logic kwargs =
      after_cleanup logic kwargs (cleanup_routers close router_classes registry)
