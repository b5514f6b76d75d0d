-- ===== src/Dynamic.antt =====
-- src/vllm_router/dynamic_config.py: the configuration file, and the watcher that applies it. What the
-- file holds at each tick, the flags of the command line, the import of the callbacks and Python's
-- `==` on configured values are arguments, with what the parts meet outside of the program.
pub mod Asked
pub mod Described
pub mod Keys
pub mod Reload
use production_stack.Base.Names.{
  ℕ, String, Bool, true, false, not, ◌&&◌, ◌||◌, Option, none, some, List, [], ◌∷◌,
}
use production_stack.Base.Tests.{if◌then◌else◌}
use production_stack.Base.Eq.{◌==◌, string_eq, contains}
use production_stack.Base.Int.{pos}
use production_stack.Base.Dict.{Dict}
use production_stack.Base.Json
use production_stack.Base.Json.{Json, Fields, null, bool, int, str, end, field, lookup, truthy}
use production_stack.Base.Outcome.{
  Outcome, return, raise, ◌>>=◌, value_error, attribute_error, other_error,
}
use production_stack.Parsers.{parse_comma_separated_args, parse_static_urls, parse_static_aliases}
use production_stack.Discovery.Service
use production_stack.Discovery.Service.{
  StaticArguments, KubernetesArguments, Wanted, static, k8s, ServiceDiscovery, Surroundings, Global,
}
use production_stack.Routing.Factory
use production_stack.Routing.Factory.{Router, Registry}

-- The fields of `DynamicRouterConfig`, with their defaults.
abbrev pub config_fields : List (String × Option Json)
config_fields =
    ("service_discovery", none)
    ∷ ("routing_logic", none)
    ∷ ("static_backends", some null)
    ∷ ("static_models", some null)
    ∷ ("static_aliases", some null)
    ∷ ("static_model_labels", some null)
    ∷ ("static_model_types", some null)
    ∷ ("static_backend_health_checks", some (bool false))
    ∷ ("static_backend_health_check_interval", some (int (pos 60)))
    ∷ ("static_backend_health_check_timeout_seconds", some (int (pos 10)))
    ∷ ("prefill_model_labels", some null)
    ∷ ("decode_model_labels", some null)
    ∷ ("k8s_port", some (int (pos 8000)))
    ∷ ("k8s_namespace", some (str "default"))
    ∷ ("k8s_label_selector", some (str ""))
    ∷ ("session_key", some null)
    ∷ ("priority_header", some (str "x-request-priority"))
    ∷ ("priority_field", some (str "priority"))
    ∷ ("priority_default", some (int (pos 0)))
    ∷ ("priority_threshold", some null)
    ∷ ("callbacks", some null)
    ∷ ("timeout_keep_alive", some (int (pos 5)))
    ∷ []

-- A `DynamicRouterConfig`: the values of its fields, in their order.
abbrev pub Config : Type 0
Config = Fields

abbrev pub value_of : Config → String → Json
value_of config name = elim (lookup config name) [ none ↦ null | some v ↦ v ]

-- The value that the constructor gives a field.
abbrev pub field_value : Option Json → Option Json → Outcome Json
field_value (some v) default = return v
field_value none (some v) = return v
field_value none none = raise (other_error "TypeError")

-- cls(**{key: value for key, value in config.items() if key in known_fields})
unfoldable pub build_config : Fields → List (String × Option Json) → Outcome Config
build_config file [] = return end
build_config file ((name, default) ∷ rest) = field_value (lookup file name) default >>= λ v.
    build_config file rest >>= λ others. return (field name v others)

abbrev pub is_field : List (String × Option Json) → String → Bool
is_field [] key = false
is_field ((name, default) ∷ rest) key = name == key || is_field rest key

-- No key of the file is neither a field nor a flag.
unfoldable pub all_recognized : List String → Fields → Bool
all_recognized flags end = true
all_recognized flags (field key v rest) =
    (is_field config_fields key || contains flags key) && all_recognized flags rest

-- `flags` are the destinations that the parser of the command line knows.
unfoldable pub from_config_dict : List String → Fields → Outcome Config
unfolding all_recognized build_config
from_config_dict flags file =
    if all_recognized flags file then build_config file config_fields else raise value_error

-- parse_comma_separated_args of a configured value, which has no `split` if it is no text
abbrev pub comma_list : Json → Outcome (Option (List String))
comma_list null = return none
comma_list (str t) = return (parse_comma_separated_args (some t))
comma_list _ = raise attribute_error

abbrev pub text_of : Json → Outcome String
text_of (str t) = return t
text_of _ = raise attribute_error

abbrev pub aliases_of : Json → Outcome (Option (Dict String String))
aliases_of v =
    if truthy v then (text_of v >>= parse_static_aliases >>= λ d. return (some d)) else return none

-- The arguments are made in the order of the call.
unfoldable pub static_arguments : (String → Bool) → Config → Outcome StaticArguments
static_arguments validate_url config = text_of (value_of config "static_backends") >>= λ backends.
    comma_list (value_of config "static_models") >>= λ models.
    aliases_of (value_of config "static_aliases") >>= λ aliases.
    comma_list (value_of config "static_model_labels") >>= λ labels.
    comma_list (value_of config "static_model_types") >>= λ types.
    comma_list (value_of config "prefill_model_labels") >>= λ prefill.
    comma_list (value_of config "decode_model_labels") >>= λ decode. return (record {
      urls = parse_static_urls validate_url backends;
      models = models;
      aliases = aliases;
      model_labels = labels;
      model_types = types;
      prefill_model_labels = prefill;
      decode_model_labels = decode;
    })

unfoldable pub k8s_arguments : Config → Outcome KubernetesArguments
k8s_arguments config = comma_list (value_of config "prefill_model_labels") >>= λ prefill.
    comma_list (value_of config "decode_model_labels") >>= λ decode. return (record {
      namespace = value_of config "k8s_namespace";
      port = value_of config "k8s_port";
      label_selector = value_of config "k8s_label_selector";
      prefill_model_labels = prefill;
      decode_model_labels = decode;
    })

-- The type of Kubernetes discovery is not given. Any other service discovery raises.
unfoldable pub wanted_by : (String → Bool) → Config → Json → Outcome Wanted
unfolding static_arguments k8s_arguments
wanted_by validate_url config (str t) =
    if t == "static"
    then (static_arguments validate_url config >>= λ a. return (static a))
    else if t == "k8s"
    then (k8s_arguments config >>= λ a. return (k8s none a))
    else raise value_error
wanted_by validate_url config _ = raise value_error

unfoldable pub wanted_of : (String → Bool) → Config → Outcome Wanted
unfolding static_arguments k8s_arguments wanted_by
wanted_of validate_url config = wanted_by validate_url config (value_of config "service_discovery")

-- The arguments of `reconfigure_routing_logic`.
unfoldable pub routing_arguments : Config → Fields
routing_arguments config = field "session_key" (value_of config "session_key") (
    field "priority_header" (value_of config "priority_header") (
      field "priority_field" (value_of config "priority_field") (
        field "priority_default" (value_of config "priority_default")
          (field "priority_threshold" (value_of config "priority_threshold") end))))

-- A value that is no text equals no routing logic; nor does the empty text.
abbrev pub logic_of : Json → String
logic_of (str t) = t
logic_of _ = ""

-- The parts of the application that a reload exchanges.
pub record App : Type 0 where
  pub service : Global
  pub registry : Registry
  pub router : Option Router
  pub callbacks : Option String

pub record Watcher : Type 0 where
  pub current_config : Config
  pub app : App

pub record Environment : Type 0 where
  pub around : Surroundings
  pub start_controller : Fields → Outcome (Unit {0})
  -- how `close` ends, of the routers that have it
  pub close : Router → Outcome (Unit {0})
  -- importlib.import_module and getattr
  pub import_callbacks : String → Outcome (Unit {0})
  pub validate_url : String → Bool
  pub flags : List String
  -- the values are equal
  pub same : Config → Config → Bool

module _ (env : Environment) where
  abbrev pub with_service : App → Outcome ServiceDiscovery × Global → Outcome (Unit {0}) × App
  with_service app (return s, g) = (return tt, record app { service = g })
  with_service app (raise e, g) = (raise e, record app { service = g })

  abbrev pub apply_wanted : App → Outcome Wanted → Outcome (Unit {0}) × App
  apply_wanted app (raise e) = (raise e, app)
  apply_wanted app (return wanted) =
      with_service app (Service.reconfigure_service_discovery env.around app.service wanted)

  unfoldable pub reconfigure_service_discovery : App → Config → Outcome (Unit {0}) × App
  unfolding wanted_of
  reconfigure_service_discovery app config = apply_wanted app (wanted_of env.validate_url config)

  -- The old router stays in `app.state` where no new one is made.
  abbrev pub with_routing : App → Outcome Router × Registry → Outcome (Unit {0}) × App
  with_routing app (return r, registry) =
      (return tt, record app { registry = registry; router = some r })
  with_routing app (raise e, registry) = (raise e, record app { registry = registry })

  unfoldable pub reconfigure_routing_logic : App → Config → Outcome (Unit {0}) × App
  unfolding routing_arguments
  reconfigure_routing_logic app config = with_routing app (
      Factory.reconfigure_routing_logic env.start_controller env.close app.registry
        (logic_of (value_of config "routing_logic")) (routing_arguments config))

  abbrev pub imported : App → String → Outcome (Unit {0}) → Outcome (Unit {0}) × App
  imported app t (return u) = (return tt, record app { callbacks = some t })
  imported app t (raise e) = (raise e, app)

  abbrev pub set_callbacks : App → Json → Outcome (Unit {0}) × App
  set_callbacks app (str t) = imported app t (env.import_callbacks t)
  set_callbacks app _ = (raise attribute_error, app)

  unfoldable pub reconfigure_callbacks : App → Config → Outcome (Unit {0}) × App
  reconfigure_callbacks app config =
      if truthy (value_of config "callbacks")
      then set_callbacks app (value_of config "callbacks")
      else (return tt, record app { callbacks = none })

  -- The next step, unless the one before raised.
  abbrev pub after :
      Outcome (Unit {0}) × App → (App → Outcome (Unit {0}) × App) → Outcome (Unit {0}) × App
  after (raise e, app) next = (raise e, app)
  after (return u, app) next = next app

  -- Of the batch API and the statistics nothing is reconfigured.
  unfoldable pub reconfigure_all : App → Config → Outcome (Unit {0}) × App
  unfolding reconfigure_service_discovery reconfigure_routing_logic reconfigure_callbacks
  reconfigure_all app config = after (reconfigure_service_discovery app config) λ with_discovery.
      after (reconfigure_routing_logic with_discovery config)
        λ with_router. reconfigure_callbacks with_router config

  -- The new configuration is current once all of it has been applied.
  abbrev pub applied : Watcher → Config → Outcome (Unit {0}) × App → Watcher
  applied w config (return u, app) = record { current_config = config; app = app }
  applied w config (raise e, app) = record w { app = app }

  unfoldable pub consider : Watcher → Outcome Config → Watcher
  unfolding reconfigure_all
  consider w (raise e) = w
  consider w (return config) =
      if env.same config w.current_config
      then w
      else applied w config (reconfigure_all w.app config)

  -- One round of `_watch_worker`, for what was read of the file.
  unfoldable pub watch : Watcher → Outcome Fields → Watcher
  unfolding from_config_dict consider
  watch w file = consider w (file >>= from_config_dict env.flags)
