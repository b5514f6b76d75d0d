-- ===== src/Discovery.antt =====
-- `K8sPodIPServiceDiscovery` of src/vllm_router/service_discovery.py: the engines that the pod events
-- of Kubernetes announce. What the API server and the engines answer comes with each event.
pub mod Listing
pub mod ServiceName
pub mod Static
pub mod Service
use production_stack.Base.Names.{
  ℕ, String, Bool, true, false, not, ◌&&◌, ◌||◌, Option, none, some, List, [], ◌∷◌, ◌++◌, map,
}
use production_stack.Base.Text.{str_append}
use production_stack.Base.Tests.{if◌then◌else◌}
use production_stack.Base.Eq.{◌==◌, string_eq, contains}
use production_stack.Base.Lists.{all, is_empty}
use production_stack.Base.Dict
use production_stack.Base.Dict.{Dict}
use production_stack.Endpoint.{ModelInfo, EndpointInfo}

pub data EventType : Type 0 where
  added modified deleted : EventType
  -- ERROR, BOOKMARK and any type that the code does not name
  another_type : EventType

-- A container of a pod, and its command where it has one.
pub record Container : Type 0 where
  pub container_name : String
  pub command : List String

-- A call of the API server: what it gives, an ApiException, or any other exception.
pub data ApiCall {ℓ} (A : Type ℓ) : Type ℓ where
  answered : A → ApiCall A
  api_exception other_exception : ApiCall A

-- One event of the watch stream. A container's status is whether it is ready; a call
-- of an engine that fails is `none`.
pub record PodEvent : Type 0 where
  pub event_type : EventType
  pub pod_name : String
  pub pod_ip : Option String
  pub container_statuses : List Bool
  pub deletion_timestamp : Option ℕ
  pub labels : Dict String String
  -- /v1/models, as _get_model_names and then _get_model_info ask for it
  pub models : Option (List ModelInfo)
  pub models_again : Option (List ModelInfo)
  -- /is_sleeping
  pub is_sleeping : Option Bool
  -- read_namespaced_pod
  pub containers : ApiCall (List Container)
  pub time : ℕ

pub record Config : Type 0 where
  pub namespace : String
  pub port : String
  -- uuid.uuid5(uuid.NAMESPACE_DNS, name)
  pub uuid5 : String → String

pub record Discovery : Type 0 where
  pub available_engines : Dict String EndpointInfo
  pub known_models : List String

unfoldable pub init : Discovery
init = record { available_engines = []; known_models = [] }

-- f"http://{ip}:{port}"
abbrev pub engine_url : String → String → String
engine_url ip port = str_append "http://" (str_append ip (str_append ":" port))

unfoldable pub check_pod_ready : List Bool → Bool
check_pod_ready [] = false
check_pod_ready (s ∷ ss) = all (λ ready. ready) (s ∷ ss)

abbrev pub is_pod_terminating : PodEvent → Bool
is_pod_terminating ev = elim ev.deletion_timestamp [ none ↦ false | some t ↦ true ]

abbrev pub or_none_found : Option (List ModelInfo) → List ModelInfo
or_none_found none = []
or_none_found (some models) = models

-- _get_model_names
abbrev pub get_model_names : PodEvent → List String
get_model_names ev = map (λ m. m.id) (or_none_found ev.models)

abbrev pub index_models : Dict String ModelInfo → List ModelInfo → Dict String ModelInfo
index_models d [] = d
index_models d (m ∷ ms) = index_models (Dict.put d m.id m) ms

-- _get_model_info
abbrev pub get_model_info : PodEvent → Dict String ModelInfo
get_model_info ev = index_models [] (or_none_found ev.models_again)

-- The first container named "vllm" decides.
abbrev pub sleep_mode : List Container → Bool
sleep_mode [] = false
sleep_mode (c ∷ cs) =
    let rest = sleep_mode cs in
    if c.container_name == "vllm"
    then is_empty c.command || contains c.command "--enable-sleep-mode"
    else rest

-- The sleep status of an engine whose sleep mode is enabled: a failed call counts as awake.
abbrev pub or_awake : Option Bool → Bool
or_awake none = false
or_awake (some b) = b

-- _check_engine_sleep_mode, and then _get_engine_sleep_status where it is enabled; none where another
-- exception than ApiException is raised, which leaves _add_engine.
unfoldable pub sleep_status : PodEvent → Option Bool
sleep_status ev = elim ev.containers [
  | answered cs ↦ some (if sleep_mode cs then or_awake ev.is_sleeping else false)
  | api_exception ↦ some false
  | other_exception ↦ none
]

-- known_models.update(model_names)
unfoldable pub add_all : List String → List String → List String
add_all known [] = known
add_all known (m ∷ ms) = add_all (if contains known m then known else known ++ m ∷ []) ms

-- The endpoint that _add_engine makes.
abbrev pub new_endpoint :
    Config → PodEvent → String → List String → Option String → Bool → EndpointInfo
new_endpoint config ev ip model_names model_label sleep = record {
  url = engine_url ip config.port;
  model_names = model_names;
  id = config.uuid5 ev.pod_name;
  added_timestamp = ev.time;
  model_label = model_label;
  sleep = sleep;
  healthy = true;
  pod_name = some ev.pod_name;
  service_name = none;
  namespace = some config.namespace;
  model_info = get_model_info ev;
}

-- What _add_engine does behind its calls.
unfoldable pub list_engine :
    Config → Discovery → PodEvent → String → List String → Option String → Bool → Discovery
list_engine config d ev ip model_names model_label sleep = record d {
  available_engines =
      Dict.put d.available_engines ev.pod_name
        (new_endpoint config ev ip model_names model_label sleep);
  known_models = add_all d.known_models model_names;
}

-- An exception that leaves it is caught by _watch_engines, which begins another stream.
unfoldable pub add_engine :
    Config → Discovery → PodEvent → String → List String → Option String → Discovery
unfolding list_engine sleep_status
add_engine config d ev ip model_names model_label = elim (sleep_status ev) [
  | none ↦ d
  | some sleep ↦ list_engine config d ev ip model_names model_label sleep
]

unfoldable pub delete_engine : Discovery → String → Discovery
delete_engine d name = record d { available_engines = Dict.del d.available_engines name }

-- `delete_engine` where the engine is listed.
unfoldable pub delete_listed : Discovery → String → Discovery
unfolding delete_engine
delete_listed d name = if Dict.has d.available_engines name then delete_engine d name else d

unfoldable pub on_engine_update :
    Config → Discovery → PodEvent → Bool → List String → Option String → Discovery
unfolding add_engine delete_listed
on_engine_update config d ev is_pod_ready model_names model_label = elim ev.event_type [
  | added ↦ elim ev.pod_ip [
    | none ↦ d
    | some ip ↦
        if is_pod_ready && not (is_empty model_names)
        then add_engine config d ev ip model_names model_label
        else d
  ]
  | deleted ↦ delete_listed d ev.pod_name
  | modified ↦ elim ev.pod_ip [
    | none ↦ delete_listed d ev.pod_name
    | some ip ↦
        if is_pod_ready && not (is_empty model_names)
        then add_engine config d ev ip model_names model_label
        else delete_listed d ev.pod_name
  ]
  | another_type ↦ d
]

unfoldable pub is_ready : PodEvent → Bool
unfolding check_pod_ready
is_ready ev = check_pod_ready ev.container_statuses && not (is_pod_terminating ev)

-- The body of _watch_engines for one event.
unfoldable pub watch_event : Config → Discovery → PodEvent → Discovery
unfolding on_engine_update is_ready
watch_event config d ev = elim ev.event_type [
  | deleted ↦ delete_listed d ev.pod_name
  | _ ↦
      if is_ready ev
      then on_engine_update config d ev true (get_model_names ev) (Dict.get ev.labels "model")
      else on_engine_update config d ev false [] none
]

unfoldable pub watch_events : Config → Discovery → List PodEvent → Discovery
unfolding watch_event
watch_events config d [] = d
watch_events config d (ev ∷ evs) = watch_events config (watch_event config d ev) evs

abbrev pub get_endpoint_info : Discovery → List EndpointInfo
get_endpoint_info d = Dict.values d.available_engines

unfoldable pub has_ever_seen_model : Discovery → String → Bool
has_ever_seen_model d model_name = contains d.known_models model_name
