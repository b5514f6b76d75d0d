-- ===== src/Routing/Session.antt =====
-- `SessionRouter` of src/vllm_router/routers/routing_logic.py, with `extract_session_id` of its base
-- class. `fallback_url` of the load-aware router and the fallback of the KV-aware one are the same
-- route.
use production_stack.Base.Names.{
  String, ◌≡◌, sym, ap, ◌∙◌, inl, inr, true, Option, none, some, List, ◌∷◌, arith,
}
use production_stack.Base.Eq.{string_eq, contains}
use production_stack.Base.Float.{Float}
use production_stack.Base.Dict.{Dict}
use production_stack.Base.Json.{Json, Fields, str, lookup, not_null}
use production_stack.Endpoint.{EndpointInfo, urls}
use production_stack.Stats.Monitor.Report.{RequestStats}
use production_stack.Routing.Qps.{qps_routing, qps_routing-IsLeast}
use production_stack.Routing.HashRing.{
  HashRing, update_hash_ring, contains-update_hash_ring, update_hash_ring_sticky,
}

-- `request.headers.get`, which knows no case, is a function of the name asked for.
abbrev pub Headers : Type 0
Headers = String → Option String

-- The header, or else the field of the body; nothing where the router has no session key.
unfoldable pub extract_session_id : Option String → Headers → Fields → Option Json
extract_session_id none headers request_json = none
extract_session_id (some session_key) headers request_json = elim (headers session_key) [
  | none ↦ not_null (lookup request_json session_key)
  | some val ↦ some (str val)
]

module _ (float : Float) (ring : HashRing) where
  open float use {F}
  open ring use {Ring, get_nodes, get_node, get_node-mem}

  abbrev choose :
      Option Json → Ring → List EndpointInfo → Dict String (RequestStats F) → Option String
  choose none r endpoints request_stats = qps_routing float endpoints request_stats
  choose (some session_id) r endpoints request_stats = get_node r session_id

  unfoldable pub route_request :
      Option String
      → Ring
      → List EndpointInfo
      → Dict String (RequestStats F)
      → Headers
      → Fields
      → Option String × Ring
  unfolding extract_session_id
  route_request session_key r endpoints request_stats headers request_json =
      let r' = update_hash_ring ring r endpoints in
      (choose (extract_session_id session_key headers request_json) r' endpoints request_stats, r')

  contains-first :
      (e : EndpointInfo) (es : List EndpointInfo) → contains (urls (e ∷ es)) e.url ≡ true
  unfolding contains
  contains-first e es = ground (arith, string_eq.beq_iff e.url e.url)

  choose-mem :
      (id : Option Json) (r : Ring) (e : EndpointInfo) (es : List EndpointInfo)
      (stats : Dict String (RequestStats F))
      → ((a : String) → contains (get_nodes r) a ≡ contains (urls (e ∷ es)) a)
      → (u : String) × (choose id r (e ∷ es) stats ≡ some u) × (contains (urls (e ∷ es)) u ≡ true)
  choose-mem none r e es stats h =
      let (u, p, d) = qps_routing-IsLeast float stats e es in
      (u, p, elim d [ inl q ↦ q.1 | inr q ↦ q.2 ])
  choose-mem (some id) r e es stats h =
      let (u, p, q) = get_node-mem r id e.url (h e.url ∙ contains-first e es) in
      (u, p, sym (h u) ∙ q)

  -- With at least one endpoint, the answer is the URL of one of them, whatever nodes the ring had
  -- before, and the ring is left with exactly their URLs.
  pub route_request-mem :
      (session_key : Option String) (r : Ring) (e : EndpointInfo) (es : List EndpointInfo)
      (stats : Dict String (RequestStats F)) (headers : Headers) (body : Fields)
      → (u : String) × ((route_request session_key r (e ∷ es) stats headers body).0 ≡ some u)
        × (contains (urls (e ∷ es)) u ≡ true)
        × ((a : String)
            → contains (get_nodes (route_request session_key r (e ∷ es) stats headers body).1) a
              ≡ contains (urls (e ∷ es)) a)
  unfolding route_request
  route_request-mem session_key r e es stats headers body =
      let same = contains-update_hash_ring ring r (e ∷ es) in
      let (u, p, q) =
        choose-mem (extract_session_id session_key headers body) (update_hash_ring ring r (e ∷ es))
          e es stats same in
      (u, p, q, same)

  -- Affinity: two requests of one session, one after the other, go to the same engine, although
  -- the figures have changed and other engines have left in between, as long as that engine is
  -- still there and no engine has joined.
  pub route_request_sticky :
      (session_key : Option String) (r : Ring) (es es' : List EndpointInfo)
      (stats stats' : Dict String (RequestStats F)) (headers headers' : Headers)
      (body body' : Fields) (id : Json) (u : String)
      → extract_session_id session_key headers body ≡ some id
      → extract_session_id session_key headers' body' ≡ some id
      → ((a : String) → contains (urls es') a ≡ true → contains (urls es) a ≡ true)
      → contains (urls es') u ≡ true
      → let first = route_request session_key r es stats headers body in
        first.0 ≡ some u → (route_request session_key first.1 es' stats' headers' body').0 ≡ some u
  unfolding route_request
  route_request_sticky session_key r es es' stats stats' headers headers' body body' id u p p'
        shrinks c h =
      ap (λ i. choose i again es' stats') p'
      ∙ update_hash_ring_sticky ring (update_hash_ring ring r es) es' id u
          (λ a k. contains-update_hash_ring ring r es a ∙ shrinks a k)
          (sym (ap (λ i. choose i (update_hash_ring ring r es) es stats) p) ∙ h) c
    where
      again : Ring
      again = update_hash_ring ring (update_hash_ring ring r es) es'
