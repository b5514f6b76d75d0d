-- ===== src/Dynamic/Described.antt =====
-- What a configuration file says of the service discovery and of the router, written independently of
-- how a reload makes the arguments, and that the arguments are that.
use production_stack.Base.Names.{String, ◌≡◌, refl, Bool, false, Option, none, some, List}
use production_stack.Base.Eq.{string_eq}
use production_stack.Base.Int.{pos}
use production_stack.Base.Dict.{Dict}
use production_stack.Base.Json.{Json, Fields, null, int, str, end, field, lookup, truthy}
use production_stack.Base.Outcome.{return}
use production_stack.Parsers.{split, parse_static_urls, parse_static_aliases}
use production_stack.Discovery.Service.{StaticArguments, KubernetesArguments, Wanted, static, k8s}
use production_stack.Routing.Factory.{
  RouterClass, session_router, round_robin_router, kvaware_router, loadaware_router,
  prefix_aware_router, disaggregated_prefill_router, disaggregated_prefill_orchestrated_router,
  priority_router, constructor_arguments,
}
use production_stack.Dynamic.{Config, value_of, routing_arguments}

-- A list in the file, and the argument that it stands for.
pub data Listed : Json → Option (List String) → Type 0 where
  absent : Listed null none
  texts : (t : String) → Listed (str t) (some (split b',' t))

-- The aliases in the file, and the argument that they stand for.
pub data Aliased : Json → Option (Dict String String) → Type 0 where
  unset : (v : Json) → truthy v ≡ false → Aliased v none
  pairs :
      (t : String) (aliases : Dict String String)
      → parse_static_aliases t ≡ return aliases
      → Aliased (str t) (some aliases)

-- The backends in the file, and the URLs that they stand for.
pub data Backends (validate_url : String → Bool) : Json → List String → Type 0 where
  valid_urls : (t : String) → Backends validate_url (str t) (parse_static_urls validate_url t)

pub record StaticFile (validate_url : String → Bool) (config : Config) (a : StaticArguments)
    : Type 0 where
  pub kind : value_of config "service_discovery" ≡ str "static"
  pub backends : Backends validate_url (value_of config "static_backends") a.urls
  pub models : Listed (value_of config "static_models") a.models
  pub aliases : Aliased (value_of config "static_aliases") a.aliases
  pub labels : Listed (value_of config "static_model_labels") a.model_labels
  pub types : Listed (value_of config "static_model_types") a.model_types
  pub prefill : Listed (value_of config "prefill_model_labels") a.prefill_model_labels
  pub decode : Listed (value_of config "decode_model_labels") a.decode_model_labels

pub record KubernetesFile (config : Config) (a : KubernetesArguments) : Type 0 where
  pub kind : value_of config "service_discovery" ≡ str "k8s"
  pub namespace : a.namespace ≡ value_of config "k8s_namespace"
  pub port : a.port ≡ value_of config "k8s_port"
  pub label_selector : a.label_selector ≡ value_of config "k8s_label_selector"
  pub prefill : Listed (value_of config "prefill_model_labels") a.prefill_model_labels
  pub decode : Listed (value_of config "decode_model_labels") a.decode_model_labels

-- The file asks for this service discovery. The type of Kubernetes discovery is never given.
pub data Asked (validate_url : String → Bool) (config : Config) : Wanted → Type 0 where
  asked_static :
      (a : StaticArguments)
      → StaticFile validate_url config a
      → Asked validate_url config (static a)
  asked_k8s :
      (a : KubernetesArguments) → KubernetesFile config a → Asked validate_url config (k8s none a)

-- Of the arguments of an LMCache controller a reload passes the session key alone.
abbrev without_controller : Json → Fields → Fields
without_controller session_key rest = field "lmcache_controller_port" null (
    field "session_key" session_key (
      field "kv_aware_threshold" null (
        field "lmcache_health_check_interval" null (
          field "lmcache_worker_timeout" null (
            field "lmcache_controller_reply_port" null
              (field "lmcache_controller_heartbeat_port" null rest))))))

-- The arguments of a router that a reload makes: the session key and the four settings of priorities
-- are those of the file, and everything else has its default.
abbrev pub from_file : Config → RouterClass → Fields
from_file config session_router = field "session_key" (value_of config "session_key") end
from_file config round_robin_router = end
from_file config kvaware_router = without_controller (value_of config "session_key") end
from_file config loadaware_router =
    without_controller (value_of config "session_key") (field "loadaware_beta" null end)
from_file config prefix_aware_router = field "prefix_min_match_length" (int (pos 0)) end
from_file config disaggregated_prefill_router =
    field "prefill_model_labels" null (field "decode_model_labels" null end)
from_file config disaggregated_prefill_orchestrated_router =
    field "prefill_model_labels" null (field "decode_model_labels" null end)
from_file config priority_router = field "priority_header" (value_of config "priority_header") (
    field "priority_field" (value_of config "priority_field") (
      field "priority_default" (value_of config "priority_default")
        (field "priority_threshold" (value_of config "priority_threshold") end)))

pub constructor_arguments-from_file :
    (config : Config) (c : RouterClass)
    → constructor_arguments c (routing_arguments config) ≡ from_file config c
unfolding constructor_arguments routing_arguments lookup
constructor_arguments-from_file config session_router = refl
constructor_arguments-from_file config round_robin_router = refl
constructor_arguments-from_file config kvaware_router = refl
constructor_arguments-from_file config loadaware_router = refl
constructor_arguments-from_file config prefix_aware_router = refl
constructor_arguments-from_file config disaggregated_prefill_router = refl
constructor_arguments-from_file config disaggregated_prefill_orchestrated_router = refl
constructor_arguments-from_file config priority_router = refl
