-- ===== src/Discovery/ServiceName.antt =====
-- `K8sServiceNameServiceDiscovery` of src/vllm_router/service_discovery.py: the engines that the
-- service events of Kubernetes announce. What the API server and the engine answer comes with each
-- event; a call of the engine that fails is `none`.
pub mod Replay
use production_stack.Base.Names.{
  ℕ, String, Bool, true, false, not, ◌&&◌, Option, none, some, List, [], ◌∷◌, map,
}
use production_stack.Base.Tests.{if◌then◌else◌}
use production_stack.Base.Eq.{◌==◌, string_eq}
use production_stack.Base.Lists.{any, is_empty}
use production_stack.Base.Dict
use production_stack.Base.Dict.{Dict}
use production_stack.Endpoint.{ModelInfo, EndpointInfo}
use production_stack.Discovery.{
  EventType, added, modified, deleted, another_type, Container, Config, engine_url, or_none_found,
  index_models, sleep_mode, or_awake, ApiCall, answered, api_exception, other_exception,
}

pub record ServiceEvent : Type 0 where
  pub event_type : EventType
  pub service_name : String
  -- read_namespaced_endpoints: for each subset, whether it has addresses
  pub subsets : Option (List Bool)
  -- the service's selector of the event, and as it is read again for the sleep mode
  pub selector : Dict String String
  pub selector_again : ApiCall (Dict String String)
  -- list_namespaced_pod: the containers of the first pod, where there is a pod
  pub pods : ApiCall (Option (List Container))
  -- /is_sleeping
  pub is_sleeping : Option Bool
  -- /v1/models, as _get_model_names and then _get_model_info ask for it
  pub models : Option (List ModelInfo)
  pub models_again : Option (List ModelInfo)
  pub time : ℕ

-- _check_service_ready
unfoldable pub check_service_ready : List Bool → Bool
check_service_ready subsets = any (λ has_addresses. has_addresses) subsets

-- _get_model_names
abbrev pub get_model_names : ServiceEvent → List String
get_model_names ev = map (λ m. m.id) (or_none_found ev.models)

-- _get_model_label: `.get` of an empty selector is `None` too
abbrev pub get_model_label : ServiceEvent → Option String
get_model_label ev = Dict.get ev.selector "model"

abbrev first_pod_mode : Option (List Container) → Bool
first_pod_mode none = false
first_pod_mode (some containers) = sleep_mode containers

-- An ApiException counts as a disabled sleep mode; any other exception is none.
abbrev pods_mode : ApiCall (Option (List Container)) → Option Bool
pods_mode (answered pods) = some (first_pod_mode pods)
pods_mode api_exception = some false
pods_mode other_exception = none

abbrev selector_mode : ServiceEvent → ApiCall (Dict String String) → Option Bool
selector_mode ev (answered []) = some false
selector_mode ev (answered (pair ∷ pairs)) = pods_mode ev.pods
selector_mode ev api_exception = some false
selector_mode ev other_exception = none

unfoldable pub check_engine_sleep_mode : ServiceEvent → Option Bool
check_engine_sleep_mode ev = selector_mode ev ev.selector_again

-- The endpoint that _add_engine makes.
unfoldable pub new_endpoint : Config → ServiceEvent → Bool → EndpointInfo
new_endpoint config ev enable_sleep_mode = record {
  url = engine_url ev.service_name config.port;
  model_names = get_model_names ev;
  id = config.uuid5 ev.service_name;
  added_timestamp = ev.time;
  model_label = get_model_label ev;
  sleep = if enable_sleep_mode then or_awake ev.is_sleeping else false;
  healthy = true;
  pod_name = none;
  service_name = some ev.service_name;
  namespace = some config.namespace;
  model_info = index_models [] (or_none_found ev.models_again);
}

-- `available_engines`
abbrev pub Engines : Type 0
Engines = Dict String EndpointInfo

-- An exception that leaves it is caught by _watch_engines, which begins another stream.
unfoldable pub add_engine : Config → Engines → ServiceEvent → Engines
unfolding new_endpoint check_engine_sleep_mode
add_engine config d ev = elim (check_engine_sleep_mode ev) [
  | none ↦ d
  | some enabled ↦ Dict.put d ev.service_name (new_endpoint config ev enabled)
]

unfoldable pub delete_engine : Engines → String → Engines
delete_engine d name = if Dict.has d name then Dict.del d name else d

abbrev is_nameless : String → Bool
is_nameless name = name == ""

-- The names and the label are those of the event where the service is ready, and none otherwise.
unfoldable pub on_engine_update : Config → Engines → ServiceEvent → Bool → Engines
unfolding add_engine delete_engine
on_engine_update config d ev is_service_ready = elim ev.event_type [
  | added ↦
      if not (is_nameless ev.service_name)
        && (is_service_ready && not (is_empty (get_model_names ev)))
      then add_engine config d ev
      else d
  | deleted ↦ delete_engine d ev.service_name
  | modified ↦
      if is_nameless ev.service_name
      then d
      else if is_service_ready && not (is_empty (get_model_names ev))
      then add_engine config d ev
      else delete_engine d ev.service_name
  | another_type ↦ d
]

unfoldable pub when_read : Config → Engines → ServiceEvent → Option (List Bool) → Engines
unfolding on_engine_update check_service_ready
when_read config d ev none = d
when_read config d ev (some subsets) = on_engine_update config d ev (check_service_ready subsets)

-- The body of _watch_engines for one event. Where the addresses of the service cannot be read, the
-- exception ends the stream before anything is changed.
unfoldable pub watch_event : Config → Engines → ServiceEvent → Engines
unfolding delete_engine when_read
watch_event config d ev = elim ev.event_type [
  | deleted ↦ delete_engine d ev.service_name
  | _ ↦ when_read config d ev ev.subsets
]

unfoldable pub watch_events : Config → Engines → List ServiceEvent → Engines
unfolding watch_event
watch_events config d [] = d
watch_events config d (ev ∷ evs) = watch_events config (watch_event config d ev) evs

abbrev pub get_endpoint_info : Engines → List EndpointInfo
get_endpoint_info d = Dict.values d
