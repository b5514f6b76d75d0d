-- ===== src/Examples/Pods.antt =====
-- Examples on the pod events and the external providers.
use production_stack.Base.Names.{String, List, ◌≡◌, refl, true, false, none, some, [], ◌∷◌}
use production_stack.Base.Tests.{if◌then◌else◌}
use production_stack.Base.Eq.{◌==◌, string_eq, contains}
use production_stack.Base.Dict
use production_stack.Endpoint.{ModelInfo}
use production_stack.Discovery.{
  PodEvent, api_exception, added, modified, Config, Discovery, init, watch_event, watch_events,
  has_ever_seen_model,
}
use production_stack.Discovery.Listing.{
  Inv, init-Inv, listed_after, has-watch_event, watch_events-Inv,
}
use production_stack.External
use production_stack.External.{
  ExternalProviderConfig, ExternalProviderManager, register, register_all, get_provider_name,
  validate_models, get_canonical_model_id,
}
use production_stack.External.Validation.{validate_models_live}
use production_stack.External.Owners.{get_provider_name-register}

abbrev llama : ModelInfo
llama = record {
  id = "llama";
  object = "model";
  created = 0;
  owned_by = "vllm";
  root = none;
  parent = none;
  is_adapter = false;
}

abbrev starts : PodEvent
starts = record {
  event_type = added;
  pod_name = "p";
  pod_ip = some "10.0.0.1";
  container_statuses = true ∷ [];
  deletion_timestamp = none;
  labels = [];
  models = some (llama ∷ []);
  models_again = some (llama ∷ []);
  is_sleeping = some false;
  containers = api_exception;
  time = 1;
}

abbrev evicted : PodEvent
evicted = record starts { event_type = modified; pod_ip = none }

abbrev config : Config
config = record { namespace = "default"; port = "8000"; uuid5 = λ name. name }

abbrev running : Discovery
running = watch_event config init starts

has-watch_event_example : Dict.has (watch_event config running evicted).available_engines "p" ≡ (
    if evicted.pod_name == "p"
    then listed_after evicted (Dict.has running.available_engines "p")
    else Dict.has running.available_engines "p")
has-watch_event_example = has-watch_event config running evicted "p"

watch_events-Inv_example :
    Inv (watch_events config init (starts ∷ evicted ∷ []))
    × ((m : String)
        → has_ever_seen_model init m ≡ true
        → has_ever_seen_model (watch_events config init (starts ∷ evicted ∷ [])) m ≡ true)
watch_events-Inv_example = watch_events-Inv config init (starts ∷ evicted ∷ []) init-Inv

abbrev openai : ExternalProviderConfig
openai = record {
  name = "openai";
  adapter_type = "openai";
  models = record { id = "gpt"; aliases = "g" ∷ [] } ∷ [];
}

abbrev rival : ExternalProviderConfig
rival = record {
  name = "rival";
  adapter_type = "openai";
  models = record { id = "r"; aliases = "g" ∷ [] } ∷ [];
}

abbrev registered : ExternalProviderManager
registered = (register ("openai" ∷ []) External.init openai).1

registered-g : get_provider_name registered "g" ≡ some "openai"
unfolding get_provider_name register External.init Dict.get Dict.put contains register_all
registered-g = refl

get_provider_name-register_example :
    get_provider_name (register ("openai" ∷ []) registered rival).1 "g" ≡ some "openai"
get_provider_name-register_example =
    get_provider_name-register ("openai" ∷ []) registered rival "g" "openai" registered-g

-- Each provider lists the one model "gpt".
abbrev fetch : String → List String
fetch p = "gpt" ∷ []

registered-openai : Dict.has registered.adapters "openai" ≡ true
unfolding register register_all External.init Dict.has Dict.put contains
registered-openai = refl

validated-g : get_provider_name (validate_models fetch registered) "g" ≡ some "openai"
unfolding validate_models get_provider_name register register_all External.init Dict.get Dict.put
    contains
validated-g = refl

validate_models_live_example :
    (c : String) × (get_canonical_model_id (validate_models fetch registered) "g" ≡ some c)
    × (contains (fetch "openai") c ≡ true)
validate_models_live_example =
    validate_models_live fetch registered "g" "openai" registered-openai refl validated-g
