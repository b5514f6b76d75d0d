-- ===== src/Examples/Discoveries.antt =====
-- Examples on the static and the service-name discovery, and on the scraper of the engines' figures.
use production_stack.Base.Names.{
  ℕ, ◌≤◌, ◌<◌, String, ◌≡◌, ◌⊎◌, refl, Bool, true, false, ◌&&◌, Option, none, some, List, [], ◌∷◌,
}
use production_stack.Base.Tests.{ltb, if◌then◌else◌}
use production_stack.Base.Eq.{◌==◌, string_eq}
use production_stack.Base.Outcome.{return}
use production_stack.Base.Dict
use production_stack.Endpoint.{EndpointInfo, ModelInfo}
use production_stack.Discovery.{answered, api_exception, added, modified, Config}
use production_stack.Discovery.Static.{
  StaticServiceDiscovery, get_model_endpoint_hash, check_model_health, get_endpoint_info,
}
use production_stack.Discovery.Static.Health.{configured, listed, answering, check_model_health_lem}
use production_stack.Discovery.ServiceName.{ServiceEvent, watch_events}
use production_stack.Discovery.ServiceName.Replay.{replay, get-watch_events}
use production_stack.Stats.Engine.{scrape_metrics, sleep_or_break}
use production_stack.Stats.Engine.Scrapes.{last_answer, get-scrape_metrics, sleep_or_break_bound}
use production_stack.Examples.Data.{engine, whole}

abbrev static_discovery : StaticServiceDiscovery
static_discovery = record {
  urls = "http://a" ∷ "http://b" ∷ [];
  models = "llama" ∷ "llama" ∷ [];
  aliases = none;
  model_labels = none;
  model_types = some ("chat" ∷ "chat" ∷ []);
  engines_id = "1" ∷ "2" ∷ [];
  added_timestamp = 0;
  unhealthy_endpoint_hashes = [];
  running = true;
  prefill_model_labels = none;
  decode_model_labels = none;
}

-- The first engine answers.
abbrev healthy : String → String → String → Bool
healthy url model type = url == "http://a"

abbrev digest : String → String
digest t = t

check_model_health_lem_example :
    ((check_model_health digest (λ u m t. return (healthy u m t)) static_discovery).1 ≡ true)
    × (infos : List EndpointInfo) × (get_endpoint_info digest
          (check_model_health digest (λ u m t. return (healthy u m t)) static_discovery).0
          9
        ≡ return infos)
    × ((u m : String)
        → listed infos u m ≡ (
            configured static_discovery.urls static_discovery.models u m
            && answering digest healthy
                (get_model_endpoint_hash digest u m)
                static_discovery.urls
                static_discovery.models
                ("chat" ∷ "chat" ∷ [])))
check_model_health_lem_example =
    check_model_health_lem digest static_discovery ("chat" ∷ "chat" ∷ []) 9 healthy refl tt refl

abbrev config : Config
config = record { namespace = "default"; port = "8000"; uuid5 = λ name. name }

abbrev llama : ModelInfo
llama = record {
  id = "llama";
  object = "model";
  created = 0;
  owned_by = "vllm";
  root = none;
  parent = none;
  is_adapter = false;
}

abbrev came : ServiceEvent
came = record {
  event_type = added;
  service_name = "s1";
  subsets = some (true ∷ []);
  selector = [];
  selector_again = answered (("app", "llm") ∷ []);
  pods = api_exception;
  is_sleeping = none;
  models = some (llama ∷ []);
  models_again = some (llama ∷ []);
  time = 4;
}

abbrev other : ServiceEvent
other = record came { event_type = modified; service_name = "s2"; subsets = some [] }

get-watch_events_example :
    Dict.get (watch_events config [] (came ∷ other ∷ [])) "s1"
    ≡ replay config "s1" (came ∷ other ∷ []) none
unfolding Dict.get
get-watch_events_example = get-watch_events config [] (came ∷ other ∷ []) "s1" refl

-- The second engine does not answer.
abbrev figures : ℕ → String → Option (List (String × ℕ))
figures i url = if url == "a" then some (("vllm:num_requests_running", 3) ∷ []) else none

get-scrape_metrics_example :
    Dict.get (scrape_metrics whole figures [] (engine "a" ∷ engine "b" ∷ [])) "a"
    ≡ last_answer whole figures 0 "a" (engine "a" ∷ engine "b" ∷ []) none
get-scrape_metrics_example = get-scrape_metrics whole figures [] (engine "a" ∷ engine "b" ∷ []) "a"

-- The flag goes down after three seconds.
abbrev until_three : ℕ → Bool
until_three i = ltb i 3

sleep_or_break_bound_example :
    (sleep_or_break 10 until_three 0 ≤ 10)
    × ((j : ℕ) → j < sleep_or_break 10 until_three 0 → until_three j ≡ true)
    × ((sleep_or_break 10 until_three 0 ≡ 10)
        ⊎ (until_three (sleep_or_break 10 until_three 0) ≡ false))
sleep_or_break_bound_example = sleep_or_break_bound 10 until_three
