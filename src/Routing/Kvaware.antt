-- ===== src/Routing/Kvaware.antt =====
-- `KvawareRouter` of src/vllm_router/routers/routing_logic.py. The LMCache controller and the tokenizer
-- are not part of the program: what they answer to one request are arguments.
pub mod Live
use production_stack.Base.Names.{
  ℕ, ◌-◌, String, Bool, true, false, not, ◌||◌, Option, none, some, List, [], ◌∷◌,
}
use production_stack.Base.Tests.{ltb, if◌then◌else◌}
use production_stack.Base.Eq.{string_eq, contains}
use production_stack.Base.Lists.{any, filter, is_empty}
use production_stack.Base.Float.{Float}
use production_stack.Base.Text.{after_first, before_first, after_last, str_append}
use production_stack.Base.Dict
use production_stack.Base.Dict.{Dict}
use production_stack.Base.Json.{Fields}
use production_stack.Base.Outcome.{Outcome, return, raise, index_error}
use production_stack.Endpoint.{EndpointInfo, urls}
use production_stack.Stats.Monitor.Report.{RequestStats}
use production_stack.Routing.Best.{first_best}
use production_stack.Routing.HashRing.{HashRing}
use production_stack.Routing.Session
use production_stack.Routing.Session.{Headers}

-- What the controller answers: the matched tokens of each instance that holds a part of the prompt,
-- in the order of its answer, and the instance at an address.
pub record Controller : Type 0 where
  pub layout_info : Dict String ℕ
  pub query_instance : String → String

-- endpoint.url.split(":" + endpoint.url.split(":")[-1])[0].split("//")[1]
unfoldable pub query_ip : String → Option String
query_ip url = elim (after_first "//" (before_first (str_append ":" (after_last ":" url)) url)) [
  | none ↦ none
  | some rest ↦ some (before_first "//" rest)
]

-- An endpoint's URL is no value of the map, or a holder no key.
unfoldable pub is_stale : Dict String String → List EndpointInfo → Dict String ℕ → Bool
is_stale instance_id_to_ip endpoints layout_info =
    any (λ e. not (contains (Dict.values instance_id_to_ip) e.url)) endpoints
    || any (λ holder. not (Dict.has instance_id_to_ip holder)) (Dict.keys layout_info)

-- The map after one query for each endpoint; an address that cannot be cut out raises.
unfoldable pub query_all :
    (String → String)
    → Dict String String
    → List EndpointInfo
    → Outcome (Unit {0}) × Dict String String
unfolding query_ip
query_all query_instance map_ [] = (return tt, map_)
query_all query_instance map_ (e ∷ es) = elim (query_ip e.url) [
  | none ↦ (raise index_error, map_)
  | some ip ↦ query_all query_instance (Dict.put map_ (query_instance ip) e.url) es
]

-- {url: holder for holder, url in map.items() if url in live_urls}
unfoldable pub live_instances :
    List String → Dict String String → Dict String String → Dict String String
live_instances live inverted [] = inverted
live_instances live inverted ((holder, url) ∷ rest) =
    live_instances live (if contains live url then Dict.put inverted url holder else inverted) rest

-- [holder for holder in layout_info if holder in url_to_instance.values()]
unfoldable pub live_holders : List String → Dict String String → Dict String ℕ → List String
unfolding live_instances
live_holders live instance_id_to_ip layout_info =
    filter (contains (Dict.values (live_instances live [] instance_id_to_ip)))
      (Dict.keys layout_info)

-- max(live_holders, key=matched tokens)
abbrev pub best_holder : Dict String ℕ → List String → Option String
best_holder layout_info =
    first_best (λ a b. ltb (Dict.get_or layout_info b 0) (Dict.get_or layout_info a 0))

-- The matched instance, where its match is long enough.
unfoldable pub matched_instance :
    List String → Dict String String → Dict String ℕ → ℕ → ℕ → Option String
unfolding live_holders
matched_instance live instance_id_to_ip layout_info tokens threshold =
    elim (best_holder layout_info (live_holders live instance_id_to_ip layout_info)) [
      | none ↦ none
      | some holder ↦
          if ltb (Dict.get_or layout_info holder 0) (tokens - threshold) then none else some holder
    ]

module _ (float : Float) (ring : HashRing) where
  open float use {F}
  open ring use {Ring}

  pub record KvawareRouter : Type 0 where
    pub session_key : Option String
    pub threshold : ℕ
    pub instance_id_to_ip : Dict String String
    pub hash_ring : Ring

  -- The answer of the session route, which may have none.
  abbrev pub with_ring :
      KvawareRouter → Option String × Ring → Outcome (Option String) × KvawareRouter
  with_ring r (url, hash_ring) = (return url, record r { hash_ring = hash_ring })

  -- The session route, with the router's ring.
  abbrev pub fallback :
      KvawareRouter
      → List EndpointInfo
      → Dict String (RequestStats F)
      → Headers
      → Fields
      → Outcome (Option String) × KvawareRouter
  fallback r endpoints request_stats headers request_json = with_ring r (
      Session.route_request float ring r.session_key r.hash_ring endpoints request_stats headers
        request_json)

  -- The map is there for every holder and endpoint.
  unfoldable pub place :
      KvawareRouter
      → Controller
      → ℕ
      → List EndpointInfo
      → Dict String (RequestStats F)
      → Headers
      → Fields
      → Outcome (Option String) × KvawareRouter
  unfolding matched_instance
  place r controller tokens endpoints request_stats headers request_json =
      elim (matched_instance (urls endpoints) r.instance_id_to_ip controller.layout_info tokens
        r.threshold) [
          | none ↦ fallback r endpoints request_stats headers request_json
          | some holder ↦ (return (Dict.get r.instance_id_to_ip holder), r)
        ]

  abbrev pub refreshed :
      KvawareRouter
      → Outcome (Unit {0}) × Dict String String
      → (KvawareRouter → Outcome (Option String) × KvawareRouter)
      → Outcome (Option String) × KvawareRouter
  refreshed r (return u, map_) use_map = use_map (record r { instance_id_to_ip = map_ })
  refreshed r (raise e, map_) use_map = (raise e, record r { instance_id_to_ip = map_ })

  -- `tokens` is the number of tokens of the prompt.
  unfoldable pub route_request :
      KvawareRouter
      → Controller
      → ℕ
      → List EndpointInfo
      → Dict String (RequestStats F)
      → Headers
      → Fields
      → Outcome (Option String) × KvawareRouter
  unfolding place is_stale query_all
  route_request r controller tokens endpoints request_stats headers request_json =
      if is_empty controller.layout_info
      then fallback r endpoints request_stats headers request_json
      else if is_stale r.instance_id_to_ip endpoints controller.layout_info
      then refreshed r (query_all controller.query_instance r.instance_id_to_ip endpoints)
          (λ r'. place r' controller tokens endpoints request_stats headers request_json)
      else place r controller tokens endpoints request_stats headers request_json
