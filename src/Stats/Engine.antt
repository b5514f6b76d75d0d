-- ===== src/Stats/Engine.antt =====
-- src/vllm_router/stats/engine_stats.py: the figures that the engines report of themselves. The
-- parser of their metrics is not part of the program: what an engine answers is its samples, or
-- nothing where the request or the parser failed.
pub mod Scrapes
use production_stack.Base.Names.{ℕ, zero, suc, String, Bool, Option, none, some, List, [], ◌∷◌}
use production_stack.Base.Tests.{if◌then◌else◌}
use production_stack.Base.Eq.{◌==◌, string_eq}
use production_stack.Base.Dict
use production_stack.Base.Dict.{Dict}
use production_stack.Base.Int.{pos}
use production_stack.Base.Float.{Float}
use production_stack.Endpoint.{EndpointInfo}

module _ (float : Float) where
  open float use {F, ratio}

  pub record EngineStats : Type 0 where
    pub num_running_requests : F
    pub num_queuing_requests : F
    pub gpu_prefix_cache_hit_rate : F
    pub gpu_prefix_cache_hits_total : F
    pub gpu_prefix_cache_queries_total : F
    pub gpu_cache_usage_perc : F

  -- The defaults of the dataclass.
  abbrev pub no_figures : EngineStats
  no_figures = record {
    num_running_requests = ratio (pos 0) 1;
    num_queuing_requests = ratio (pos 0) 1;
    gpu_prefix_cache_hit_rate = ratio (pos 0) 1;
    gpu_prefix_cache_hits_total = ratio (pos 0) 1;
    gpu_prefix_cache_queries_total = ratio (pos 0) 1;
    gpu_cache_usage_perc = ratio (pos 0) 1;
  }

  -- One sample; a name that is not asked for is passed over.
  unfoldable pub read_sample : EngineStats → String → F → EngineStats
  read_sample s name value =
      if name == "vllm:num_requests_running"
      then record s { num_running_requests = value }
      else if name == "vllm:num_requests_waiting"
      then record s { num_queuing_requests = value }
      else if name == "vllm:gpu_prefix_cache_hit_rate"
      then record s { gpu_prefix_cache_hit_rate = value }
      else if name == "vllm:gpu_prefix_cache_hits_total"
      then record s { gpu_prefix_cache_hits_total = value }
      else if name == "vllm:gpu_prefix_cache_queries_total"
      then record s { gpu_prefix_cache_queries_total = value }
      else if name == "vllm:gpu_cache_usage_perc"
      then record s { gpu_cache_usage_perc = value }
      else s

  unfoldable pub read_samples : EngineStats → List (String × F) → EngineStats
  unfolding read_sample
  read_samples s [] = s
  read_samples s ((name, value) ∷ rest) = read_samples (read_sample s name value) rest

  unfoldable pub from_vllm_scrape : List (String × F) → EngineStats
  unfolding read_samples
  from_vllm_scrape samples = read_samples no_figures samples

  -- What one request for the metrics of an engine brings.
  abbrev pub Answers : Type 0
  Answers = ℕ → String → Option (List (String × F))

  abbrev scraped : Option (List (String × F)) → Option EngineStats
  unfolding from_vllm_scrape
  scraped none = none
  scraped (some samples) = some (from_vllm_scrape samples)

  unfoldable pub scrape_one_endpoint : Option (List (String × F)) → Option EngineStats
  unfolding scraped
  scrape_one_endpoint answer = scraped answer

  abbrev pub keep : Dict String EngineStats → String → Option EngineStats → Dict String EngineStats
  keep collected url none = collected
  keep collected url (some stats) = Dict.put collected url stats

  -- The requests one after the other; the engine at an URL answers the request number `i`.
  unfoldable pub collect :
      Answers → ℕ → Dict String EngineStats → List EndpointInfo → Dict String EngineStats
  unfolding scrape_one_endpoint
  collect answers i collected [] = collected
  collect answers i collected (e ∷ es) =
      collect answers (suc i) (keep collected e.url (scrape_one_endpoint (answers i e.url))) es

  -- for old_url in old_urls: del self.engine_stats[old_url], if it was not collected
  unfoldable pub drop_missing :
      Dict String EngineStats → List String → Dict String EngineStats → Dict String EngineStats
  drop_missing collected [] stats = stats
  drop_missing collected (old_url ∷ old_urls) stats =
      drop_missing collected old_urls
        (if Dict.has collected old_url then stats else Dict.del stats old_url)

  unfoldable pub write_all :
      Dict String EngineStats → Dict String EngineStats → Dict String EngineStats
  write_all [] stats = stats
  write_all ((url, s) ∷ rest) stats = write_all rest (Dict.put stats url s)

  -- One round of _scrape_metrics, from `engine_stats`.
  unfoldable pub scrape_metrics :
      Answers → Dict String EngineStats → List EndpointInfo → Dict String EngineStats
  unfolding collect drop_missing write_all
  scrape_metrics answers engine_stats endpoints =
      let collected = collect answers 0 [] endpoints in
      write_all collected (drop_missing collected (Dict.keys engine_stats) engine_stats)

-- The seconds that _sleep_or_break sleeps, from the second `i`, with `rounds` left; `running` is the
-- flag as it is read in each of them. The configuration watcher has the same loop.
unfoldable pub sleep_or_break : ℕ → (ℕ → Bool) → ℕ → ℕ
sleep_or_break zero running i = i
sleep_or_break (suc rounds) running i =
    let rest = sleep_or_break rounds running (suc i) in if running i then rest else i
