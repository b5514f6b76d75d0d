-- ===== src/Routing/LoadAware/Route.antt =====
-- `route_request` of `LoadAwareRouter` of src/vllm_router/routers/routing_logic.py, with the map of
-- instances that it keeps. The controller and the tokenizer are not part of the program: what they
-- answer to one request are arguments.
use production_stack.Base.Names.{
  ℕ, String, ◌≡◌, refl, ap, inl, inr, Bool, true, false, Option, none, some, List, [], ◌∷◌,
}
use production_stack.Base.Tests.{if◌then◌else◌, Bool-cases}
use production_stack.Base.Eq.{string_eq, contains}
use production_stack.Base.Lists.{is_empty}
use production_stack.Base.Float.{Float}
use production_stack.Base.Dict
use production_stack.Base.Dict.{Dict}
use production_stack.Base.Json.{Fields}
use production_stack.Base.Outcome.{Outcome, return, raise, http_exception}
use production_stack.Base.Sort.{sort_by}
use production_stack.Endpoint.{EndpointInfo, urls, url_leb}
use production_stack.Stats.Monitor.Report.{RequestStats}
use production_stack.Routing.Best.{IsFirstBest}
use production_stack.Routing.HashRing.{HashRing}
use production_stack.Routing.Session
use production_stack.Routing.Session.{Headers, route_request-mem}
use production_stack.Routing.Kvaware.{is_stale}
use production_stack.Routing.LoadAware.{matched_tokens_by_url, relative_loads, score, select_url}
use production_stack.Routing.LoadAware.Placement.{higher, select_url-IsFirstBest}

-- One lookup: the matched tokens of each instance, the instance at the host of each URL, and the
-- endpoints in the order in which the concurrent queries for them come back.
pub record Lookup : Type 0 where
  pub layout_info : Dict String ℕ
  pub instance_at : String → String
  pub arrived : List EndpointInfo

-- self.instance_id_to_ip[instance_id] = endpoint.url, for each answer
unfoldable pub note_instances :
    (String → String) → Dict String String → List EndpointInfo → Dict String String
note_instances instance_at map_ [] = map_
note_instances instance_at map_ (e ∷ es) =
    note_instances instance_at (Dict.put map_ (instance_at e.url) e.url) es

unfoldable pub refresh_instance_map :
    Dict String String → List EndpointInfo → Lookup → Dict String String
unfolding is_stale note_instances
refresh_instance_map map_ endpoints found =
    if is_stale map_ endpoints found.layout_info
    then note_instances found.instance_at map_ found.arrived
    else map_

module _ (float : Float) (ring : HashRing) where
  open float use {F}
  open ring use {Ring}

  pub record LoadAwareRouter : Type 0 where
    pub session_key : Option String
    pub beta : F
    pub instance_id_to_ip : Dict String String
    pub hash_ring : Ring

  abbrev with_url :
      LoadAwareRouter → Option String × Ring → Outcome (Option String) × LoadAwareRouter
  with_url r (url, hash_ring) = (return url, record r { hash_ring = hash_ring })

  unfoldable pub fallback_url :
      LoadAwareRouter
      → List EndpointInfo
      → Dict String (RequestStats F)
      → Headers
      → Fields
      → Outcome (Option String) × LoadAwareRouter
  fallback_url r endpoints request_stats headers request_json = with_url r (
      Session.route_request float ring r.session_key r.hash_ring endpoints request_stats headers
        request_json)

  -- `select_url`, and the fallback where it has no answer.
  unfoldable pub place :
      LoadAwareRouter
      → Lookup
      → ℕ
      → List EndpointInfo
      → Dict String (RequestStats F)
      → Headers
      → Fields
      → Outcome (Option String) × LoadAwareRouter
  unfolding fallback_url
  place r found tokens endpoints request_stats headers request_json =
      elim (select_url float r.beta r.instance_id_to_ip endpoints request_stats found.layout_info
        tokens) [
          | none ↦ fallback_url r endpoints request_stats headers request_json
          | some url ↦ (return (some url), r)
        ]

  -- `tokens` is the number of tokens of the prompt.
  unfoldable pub route_request :
      LoadAwareRouter
      → Lookup
      → ℕ
      → List EndpointInfo
      → Dict String (RequestStats F)
      → Headers
      → Fields
      → Outcome (Option String) × LoadAwareRouter
  unfolding fallback_url refresh_instance_map place
  route_request r found tokens [] request_stats headers request_json =
      (raise (http_exception 503 "No backend endpoints available"), r)
  route_request r found tokens (e ∷ es) request_stats headers request_json =
      if is_empty found.layout_info
      then fallback_url r (e ∷ es) request_stats headers request_json
      else place
          (record r { instance_id_to_ip = refresh_instance_map r.instance_id_to_ip (e ∷ es) found })
          found tokens (e ∷ es) request_stats headers request_json

  -- The placement by the map that the call leaves.
  abbrev pub PlacedBest :
      Lookup
      → ℕ
      → List EndpointInfo
      → Dict String (RequestStats F)
      → LoadAwareRouter
      → String
      → Type 0
  PlacedBest found tokens endpoints request_stats r url =
      let value =
        score float r.beta tokens (matched_tokens_by_url r.instance_id_to_ip found.layout_info)
          (relative_loads float request_stats endpoints) in
      (best : EndpointInfo) × (best.url ≡ url)
      × IsFirstBest (higher float value) best (sort_by url_leb endpoints)

  place-PlacedBest :
      (r : LoadAwareRouter) (found : Lookup) (tokens : ℕ) (e : EndpointInfo)
      (es : List EndpointInfo) (stats : Dict String (RequestStats F)) (headers : Headers)
      (body : Fields)
      → let result = place r found tokens (e ∷ es) stats headers body in
        (u : String) × (result.0 ≡ return (some u))
        × (contains (urls (e ∷ es)) u ≡ true)
        × PlacedBest found tokens (e ∷ es) stats result.1 u
  unfolding place
  place-PlacedBest r found tokens e es stats headers body =
      let (best, q, b, c) =
        select_url-IsFirstBest float r.beta r.instance_id_to_ip e es stats found.layout_info
          tokens in
      rw (q, place) ((best.url, refl, c, (best, refl, b)))

  abbrev pub PlacedWhere :
      Bool
      → Lookup
      → ℕ
      → List EndpointInfo
      → Dict String (RequestStats F)
      → LoadAwareRouter
      → String
      → Type 0
  PlacedWhere true found tokens endpoints request_stats r url = Unit
  PlacedWhere false found tokens endpoints request_stats r url =
      PlacedBest found tokens endpoints request_stats r url

  abbrev pub Routed :
      LoadAwareRouter
      → Lookup
      → ℕ
      → List EndpointInfo
      → Dict String (RequestStats F)
      → Outcome (Option String) × LoadAwareRouter
      → Type 0
  Routed r found tokens [] stats result =
      result ≡ (raise (http_exception 503 "No backend endpoints available"), r)
  Routed r found tokens (e ∷ es) stats (answer, r') =
      (u : String) × (answer ≡ return (some u))
      × (contains (urls (e ∷ es)) u ≡ true)
      × PlacedWhere (is_empty found.layout_info) found tokens (e ∷ es) stats r' u

  -- A request for no endpoint is refused with 503. Any other is sent to one of the endpoints,
  -- whatever the controller answers and in whatever order; and where some engine holds a part of the
  -- prompt, it is sent to the endpoint that is placed best by the map of instances as it is then.
  pub route_request-Routed :
      (r : LoadAwareRouter) (found : Lookup) (tokens : ℕ) (endpoints : List EndpointInfo)
      (stats : Dict String (RequestStats F)) (headers : Headers) (body : Fields)
      → Routed r found tokens endpoints stats
          (route_request r found tokens endpoints stats headers body)
  unfolding route_request fallback_url
  route_request-Routed r found tokens [] stats headers body = refl
  route_request-Routed r found tokens (e ∷ es) stats headers body =
      elim (Bool-cases (is_empty found.layout_info)) [
        | inl p ↦
            let (u, q, c, _) =
              route_request-mem float ring r.session_key r.hash_ring e es stats headers body in
            rw p ((u, ap return q, c, tt))
        | inr p ↦ rw p (
            place-PlacedBest
              (record r {
                instance_id_to_ip = refresh_instance_map r.instance_id_to_ip (e ∷ es) found;
              })
              found tokens e es stats headers body)
      ]
