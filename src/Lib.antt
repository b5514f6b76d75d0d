-- ===== src/Lib.antt =====
-- A model of the request router of the vLLM production stack, the Python package src/vllm_router, and
-- the theorems that make its parts correct.
--
-- The router takes an OpenAI-style request, finds the engines that serve its model, lets a routing
-- policy choose one, and streams the engine's answer back; when an engine fails before it answers,
-- another one is tried. While a request runs, the statistics count it, and some policies choose by
-- these figures.
--
-- Parts, and where they are modelled:
--   Base: numbers, texts and their order, Python's dict, JSON values, floats as an interface with the
--     laws of their order, and what a call gives back, a value or an exception.
--   Stats (src/vllm_router/stats/request_stats.py): Stats.Window is MovingAverageMonitor, Stats.Monitor
--     is RequestStatsMonitor with one function a method, Stats.Monitor.Report is get_request_stats.
--     Stats.Engine (src/vllm_router/stats/engine_stats.py) is the scraper of the engines' figures.
--     Times are whole numbers. A method runs under the lock, so it is one step on the state.
--   Prefix (src/vllm_router/prefix/hashtrie.py): the trie of hashed chunks. The hash xxhash.xxh64 is a
--     parameter, a request is the list of its characters' codes. Cutting a request into chunks is
--     recursion on fuel, the length of the request, which is enough since a chunk takes at least one
--     character when the chunk size is positive.
--   Endpoint, Discovery (src/vllm_router/service_discovery.py): the descriptions of engines.
--     Discovery is K8sPodIPServiceDiscovery as a fold over pod events, Discovery.ServiceName is
--     K8sServiceNameServiceDiscovery as a fold over service events; what the API server and the engines
--     answer comes with each event. Discovery.Static is StaticServiceDiscovery with its health checks,
--     over the digest and the probe as parameters. Discovery.Service is the discovery that the router
--     has: its creation, and how it is exchanged.
--   Routing (src/vllm_router/routers/routing_logic.py): RoundRobin, Qps for _qps_routing, HashRing for
--     _update_hash_ring over the package uhashring as an interface with laws, Session, Priority,
--     Disaggregated for both routers by labels, PrefixAware over the trie of Prefix, Kvaware and
--     LoadAware over what the LMCache controller answers to one request, and Factory for the making of
--     routers over the registry of singletons (src/vllm_router/utils.py); how closing an old router
--     ends is an argument.
--   External (src/vllm_router/external_providers/registry.py): the index of external models.
--   Request (src/vllm_router/services/request_service/request.py): Request.Admission is
--     route_general_request up to its loop, Request.Failover is the loop, over a Router and a Backend
--     as interfaces, and Request.Process is process_request with its calls of the statistics.
--     Request.Routers fills the Router interface by the round-robin and the session policy.
--     The number of attempts, one more than max_instance_failover_reroute_attempts, bounds the loop by
--     itself. That setting is taken as not negative.
--     Request.Orchestrated is route_orchestrated_disaggregated_request and Request.Prefill is
--     route_disaggregated_prefill_request, with the engines as functions from a URL and a body.
--     Request.Multipart is proxy_multipart_request, with how an exchange can go as a data type,
--     and Request.Sleep is route_sleep_wakeup_request.
--   Parsers (src/vllm_router/utils.py, src/vllm_router/parsers/yaml_utils.py): the texts of the
--     configuration. Dynamic (src/vllm_router/dynamic_config.py): the configuration of a file, and the
--     watcher, one tick at a time, which exchanges the discovery, the router and the callbacks.
--     Parsers.Arguments (src/vllm_router/parsers/parser.py) is validate_args, with the sample rates as
--     an argument, and ModelType.get_url of src/vllm_router/utils.py.
--   Examples: concrete data on which the theorems apply.
--
-- Not modelled: tracing, metrics, logging, callbacks, the request rewriter, the semantic cache, the
-- files and batch services, the start-up, the transcription route, the interleaving of concurrent
-- requests inside one method, and threads.
pub mod Base
pub mod Discovery
pub mod Dynamic
pub mod Endpoint
pub mod Examples
pub mod External
pub mod Parsers
pub mod Prefix
pub mod Request
pub mod Routing
pub mod Stats
