-- ===== src/Discovery/Static.antt =====
-- `StaticServiceDiscovery` of src/vllm_router/service_discovery.py. The digest of a text, the probe of
-- a model by `is_model_healthy` and the fresh engine ids are arguments.
pub mod Health
use production_stack.Base.Text.{str_append}
use production_stack.Base.Names.{
  ℕ, suc, String, Bool, true, false, not, ◌||◌, Option, none, some, List, [], ◌∷◌, ◌++◌,
}
use production_stack.Base.Tests.{nat_beq, if◌then◌else◌}
use production_stack.Base.Eq.{◌==◌, string_eq, contains}
use production_stack.Base.Lists.{length, get_elem?}
use production_stack.Base.Dict
use production_stack.Base.Dict.{Dict}
use production_stack.Base.Outcome.{
  Outcome, return, raise, ◌>>=◌, value_error, index_error, other_error,
}
use production_stack.Endpoint.{ModelInfo, EndpointInfo}

pub record StaticServiceDiscovery : Type 0 where
  pub urls : List String
  pub models : List String
  pub aliases : Option (Dict String String)
  pub model_labels : Option (List String)
  pub model_types : Option (List String)
  pub engines_id : List String
  pub added_timestamp : ℕ
  pub unhealthy_endpoint_hashes : List String
  pub running : Bool
  pub prefill_model_labels : Option (List String)
  pub decode_model_labels : Option (List String)

-- The constructor, but for the thread of the health checks. `engines_id` are fresh ids, one for each URL.
unfoldable pub init :
    List String
    → List String
    → Option (Dict String String)
    → Option (List String)
    → Option (List String)
    → Option (List String)
    → Option (List String)
    → List String
    → ℕ
    → Outcome StaticServiceDiscovery
init urls models aliases model_labels model_types prefill_model_labels decode_model_labels
      engines_id time =
    if nat_beq (length urls) (length models)
    then return (record {
      urls = urls;
      models = models;
      aliases = aliases;
      model_labels = model_labels;
      model_types = model_types;
      engines_id = engines_id;
      added_timestamp = time;
      unhealthy_endpoint_hashes = [];
      running = true;
      prefill_model_labels = prefill_model_labels;
      decode_model_labels = decode_model_labels;
    })
    else raise (other_error "AssertionError")

-- What one round of probes finds: the hashes of the models that failed, or the exception of a probe.
abbrev pub Probe : Type 0
Probe = String → String → String → Outcome Bool

-- What a probe adds to what the later ones find. ValueError is caught behind the loop.
abbrev pub add_probe : String → Outcome Bool → Outcome (List String) → Outcome (List String)
add_probe hash (return true) rest = rest
add_probe hash (return false) rest = rest >>= λ later. return (hash ∷ later)
add_probe hash (raise value_error) rest = return []
add_probe hash (raise e) rest = raise e

abbrev pub label_at : Option (List String) → ℕ → Outcome String
label_at none i = return "default"
label_at (some []) i = return "default"
label_at (some (l ∷ ls)) i = elim (get_elem? (l ∷ ls) i) [
  | none ↦ raise index_error
  | some label ↦ return label
]

abbrev pub id_at : List String → ℕ → Outcome String
id_at ids i = elim (get_elem? ids i) [ none ↦ raise index_error | some id ↦ return id ]

unfoldable pub get_model_info : ℕ → String → Dict String ModelInfo
get_model_info now model =
    (
      model,
      record {
        id = model;
        object = "model";
        created = now;
        owned_by = "vllm";
        root = none;
        parent = none;
        is_adapter = false;
      },
    )
    ∷ []

unfoldable pub static_endpoint :
    StaticServiceDiscovery → ℕ → String → String → String → String → EndpointInfo
unfolding get_model_info
static_endpoint s now url model label id = record {
  url = url;
  model_names = model ∷ [];
  id = id;
  added_timestamp = s.added_timestamp;
  model_label = some label;
  sleep = false;
  healthy = true;
  pod_name = none;
  service_name = none;
  namespace = none;
  model_info = get_model_info now model;
}

module _ (md5 : String → String) where
  unfoldable pub get_model_endpoint_hash : String → String → String
  get_model_endpoint_hash url model = md5 (str_append url model)

  -- The loop over `zip(urls, models, model_types, strict=True)`. Where one list ends before another,
  -- `zip` raises ValueError, and what was found so far is given back.
  unfoldable pub probe_all : Probe → List String → List String → List String → Outcome (List String)
  unfolding get_model_endpoint_hash
  probe_all probe (url ∷ urls) (model ∷ models) (type ∷ types) =
      add_probe (get_model_endpoint_hash url model) (probe url model type)
        (probe_all probe urls models types)
  probe_all probe urls models types = return []

  -- `zip` refuses a `None`.
  abbrev pub probe_typed :
      Probe → StaticServiceDiscovery → Option (List String) → Outcome (List String)
  probe_typed probe s none = raise (other_error "TypeError")
  probe_typed probe s (some types) = probe_all probe s.urls s.models types

  unfoldable pub get_unhealthy_endpoint_hashes :
      Probe → StaticServiceDiscovery → Outcome (List String)
  unfolding probe_all
  get_unhealthy_endpoint_hashes probe s = probe_typed probe s s.model_types

  abbrev pub after_round :
      StaticServiceDiscovery → Outcome (List String) → StaticServiceDiscovery × Bool
  after_round s (return hashes) = (record s { unhealthy_endpoint_hashes = hashes }, true)
  after_round s (raise e) = (s, false)

  -- One round of `check_model_health`: the state, and whether the task sleeps before the next one.
  unfoldable pub check_model_health : Probe → StaticServiceDiscovery → StaticServiceDiscovery × Bool
  unfolding get_unhealthy_endpoint_hashes
  check_model_health probe s = after_round s (get_unhealthy_endpoint_hashes probe s)

  -- The loop over `enumerate(zip(urls, models))` from the index `i`.
  unfoldable pub endpoints_from :
      StaticServiceDiscovery → ℕ → ℕ → List String → List String → Outcome (List EndpointInfo)
  unfolding static_endpoint get_model_endpoint_hash
  endpoints_from s now i (url ∷ urls) (model ∷ models) =
      let rest = endpoints_from s now (suc i) urls models in
      if contains s.unhealthy_endpoint_hashes (get_model_endpoint_hash url model)
      then rest
      else label_at s.model_labels i >>= λ label. id_at s.engines_id i >>= λ id.
          rest >>= λ later. return (static_endpoint s now url model label id ∷ later)
  endpoints_from s now i urls models = return []

  unfoldable pub get_endpoint_info : StaticServiceDiscovery → ℕ → Outcome (List EndpointInfo)
  unfolding endpoints_from
  get_endpoint_info s now = endpoints_from s now 0 s.urls s.models

-- A missing or an empty table of aliases knows no model.
unfoldable pub has_ever_seen_model : StaticServiceDiscovery → String → Bool
has_ever_seen_model s model_name =
    contains s.models model_name
    || elim s.aliases [ none ↦ false | some aliases ↦ Dict.has aliases model_name ]

-- `app.state.prefill_client` and `app.state.decode_client`, by the URL that they are for.
pub record Clients : Type 0 where
  pub prefill_client : Option String
  pub decode_client : Option String

abbrev labelled : List String → Option String → Bool
labelled labels none = false
labelled labels (some label) = contains labels label

unfoldable pub open_clients : List String → List String → List EndpointInfo → Clients → Clients
open_clients prefill decode [] clients = clients
open_clients prefill decode (e ∷ es) clients = open_clients prefill decode es (
    if labelled prefill e.model_label
    then record clients { prefill_client = some e.url }
    else if labelled decode e.model_label
    then record clients { decode_client = some e.url }
    else clients)

-- Nothing is opened unless both kinds of labels are given.
unfoldable pub initialize_client_sessions :
    StaticServiceDiscovery → Outcome (List EndpointInfo) → Clients → Outcome Clients
unfolding open_clients
initialize_client_sessions s endpoint_infos clients = elim s.prefill_model_labels [
  | none ↦ return clients
  | some prefill ↦ elim s.decode_model_labels [
    | none ↦ return clients
    | some decode ↦ endpoint_infos >>= λ infos. return (open_clients prefill decode infos clients)
  ]
]

-- `close`, but for the thread that it ends.
unfoldable pub close : StaticServiceDiscovery → StaticServiceDiscovery
close s = record s { running = false }
