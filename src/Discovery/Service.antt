-- ===== src/Discovery/Service.antt =====
-- The service discovery that the router has: `_create_service_discovery`, and how it is initialized,
-- reconfigured and asked for, at the end of src/vllm_router/service_discovery.py. Whether the client
-- of Kubernetes starts is an argument, and so are the fresh ids of the engines.
use production_stack.Base.Names.{
  ℕ, String, Bool, false, Option, none, some, List, [], ◌∷◌, ◌+◌, ◌&&◌,
}
use production_stack.Base.Tests.{nat_beq, leb, if◌then◌else◌}
use production_stack.Base.Dict.{Dict}
use production_stack.Base.Json.{Json}
use production_stack.Base.PyInt.{codes, strip}
use production_stack.Base.Outcome.{Outcome, return, raise, ◌>>=◌, value_error, other_error}
use production_stack.Discovery.Static.{StaticServiceDiscovery}
use production_stack.Discovery.Static

-- The settings of the health checks, which only start their thread, are left out.
pub record StaticArguments : Type 0 where
  pub urls : List String
  pub models : Option (List String)
  pub aliases : Option (Dict String String)
  pub model_labels : Option (List String)
  pub model_types : Option (List String)
  pub prefill_model_labels : Option (List String)
  pub decode_model_labels : Option (List String)

pub record KubernetesArguments : Type 0 where
  pub namespace : Json
  pub port : Json
  pub label_selector : Json
  pub prefill_model_labels : Option (List String)
  pub decode_model_labels : Option (List String)

-- The type of service discovery, with its arguments. Of Kubernetes discovery, also the
-- `k8s_service_discovery_type`.
pub data Wanted : Type 0 where
  static : StaticArguments → Wanted
  k8s : Option String → KubernetesArguments → Wanted
  external_only : Wanted

pub data ServiceDiscovery : Type 0 where
  static_service : StaticServiceDiscovery → ServiceDiscovery
  pod_ip_service : KubernetesArguments → ServiceDiscovery
  service_name_service : KubernetesArguments → ServiceDiscovery
  external_only_service : ServiceDiscovery

-- The letters that .lower() changes, as far as the comparison can see it.
abbrev lower : List ℕ → List ℕ
lower [] = []
lower (c ∷ cs) = (if leb b'A' c && leb c b'Z' then c + 32 else c) ∷ lower cs

abbrev same_codes : List ℕ → List ℕ → Bool
same_codes [] [] = Bool.true
same_codes (c ∷ cs) (d ∷ ds) = nat_beq c d && same_codes cs ds
same_codes _ _ = false

-- A missing or blank type is "pod-ip", as is every type but "service-name".
unfoldable pub is_service_name : Option String → Bool
unfolding strip
is_service_name none = false
is_service_name (some t) = same_codes (lower (strip (codes t))) (codes "service-name")

-- What the constructors meet outside of the program.
pub record Surroundings : Type 0 where
  pub engines_id : List String
  pub time : ℕ
  pub connect : KubernetesArguments → Outcome (Unit {0})

abbrev static_of : Surroundings → StaticArguments → Option (List String) → Outcome ServiceDiscovery
unfolding Static.init
static_of around a none = raise (other_error "TypeError")
static_of around a (some models) =
    Static.init a.urls models a.aliases a.model_labels a.model_types a.prefill_model_labels
      a.decode_model_labels around.engines_id around.time
    >>= λ s. return (static_service s)

unfoldable pub create_service_discovery : Surroundings → Wanted → Outcome ServiceDiscovery
unfolding is_service_name static_of
create_service_discovery around (static a) = static_of around a a.models
create_service_discovery around (k8s discovery_type a) = around.connect a >>= λ u.
    return (if is_service_name discovery_type then service_name_service a else pod_ip_service a)
create_service_discovery around external_only = return external_only_service

-- `_global_service_discovery`, and those that have been closed.
pub record Global : Type 0 where
  pub current : Option ServiceDiscovery
  pub closed : List ServiceDiscovery

abbrev started : Global → Outcome ServiceDiscovery → Outcome ServiceDiscovery × Global
started g (raise e) = (raise e, g)
started g (return s) = (return s, record g { current = some s })

unfoldable pub initialize_service_discovery :
    Surroundings → Global → Wanted → Outcome ServiceDiscovery × Global
unfolding create_service_discovery
initialize_service_discovery around g wanted = elim g.current [
  | some s ↦ (raise value_error, g)
  | none ↦ started g (create_service_discovery around wanted)
]

-- The new one is there before the old one is closed.
abbrev pub exchanged :
    Global → ServiceDiscovery → Outcome ServiceDiscovery → Outcome ServiceDiscovery × Global
exchanged g old (raise e) = (raise e, g)
exchanged g old (return s) = (return s, record { current = some s; closed = old ∷ g.closed })

unfoldable pub exchange :
    Surroundings → Global → Wanted → Option ServiceDiscovery → Outcome ServiceDiscovery × Global
unfolding create_service_discovery
exchange around g wanted none = (raise value_error, g)
exchange around g wanted (some old) = exchanged g old (create_service_discovery around wanted)

unfoldable pub reconfigure_service_discovery :
    Surroundings → Global → Wanted → Outcome ServiceDiscovery × Global
unfolding create_service_discovery exchange
reconfigure_service_discovery around g wanted = exchange around g wanted g.current

unfoldable pub get_service_discovery : Global → Outcome ServiceDiscovery
get_service_discovery g = elim g.current [ none ↦ raise value_error | some s ↦ return s ]
