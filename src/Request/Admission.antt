-- ===== src/Request/Admission.antt =====
-- `route_general_request` of src/vllm_router/services/request_service/request.py, from the parsed body
-- to the reply: the error answers before routing, the candidates, and the loop of Request/Failover.
-- It is the case of a router that is not disaggregated, with no callback and no request rewriter.
pub mod Errors
use production_stack.Base.Names.{
  ℕ, String, ◌≡◌, refl, sym, ap, ◌∙◌, subst, ◌⊎◌, inl, inr, Bool, true, false, not, ◌&&◌, Option,
  none, some, List, [], ◌∷◌, arith,
}
use production_stack.Base.Tests.{if◌then◌else◌, Bool-cases, Option-cases}
use production_stack.Base.Eq.{◌==◌, string_eq, contains}
use production_stack.Base.Lists.{filter, any, is_empty}
use production_stack.Base.Dict
use production_stack.Base.Dict.{Dict}
use production_stack.Endpoint.{EndpointInfo, urls}
use production_stack.Discovery.{Discovery, get_endpoint_info, has_ever_seen_model}
use production_stack.External.{ExternalProviderManager, is_external_model}
use production_stack.Request.Failover.{
  Router, Backend, Reply, error_response, streaming, raised, Run, send, choose_server,
}
use production_stack.Request.Failover.Attempts.{RouterLaws, send-tried}

-- The body: not JSON, JSON but no object, or an object with the text of its `model` if it has one.
-- An empty body counts as an empty object.
pub data Body : Type 0 where
  malformed not_object : Body
  object : Option String → Body

-- `id` is the query parameter that names an engine.
pub record HttpRequest : Type 0 where
  pub body : Body
  pub id : Option String

-- What else the service reads: the aliases of static discovery, the external providers, and the
-- reply that the provider of a model gives.
pub record Setup : Type 0 where
  pub aliases : Dict String String
  pub external_provider_registry : ExternalProviderManager
  pub external_reply : String → Reply
  pub reroutes : ℕ

-- aliases[requested_model] where it is there
abbrev pub resolve : Dict String String → String → String
resolve aliases requested_model = Dict.get_or aliases requested_model requested_model

abbrev pub has_id : Option String → EndpointInfo → Bool
has_id none ep = true
has_id (some id) ep = ep.id == id

-- The engines that serve the model, awake, and of them the named one where the client names one.
unfoldable pub candidates : Option String → String → List EndpointInfo → List EndpointInfo
candidates id model endpoints =
    filter (λ ep. contains ep.model_names model && (has_id id ep && not ep.sleep)) endpoints

-- An empty `id` counts as none.
abbrev pub request_endpoint : Option String → Option String
request_endpoint none = none
request_endpoint (some id) = if id == "" then none else some id

abbrev pub is_pinned : Option String → Bool
is_pinned none = false
is_pinned (some id) = true

module _ (router : Router) (backend : Backend) where
  open router use {State}

  abbrev answer : Reply → State → Run State
  answer reply s = record { reply = reply; tried = []; router_state = s }

  unfoldable pub route_candidates :
      Setup → State → Discovery → Option String → String → List EndpointInfo → Run State
  route_candidates setup s discovery id model [] =
      answer (error_response (if has_ever_seen_model discovery model then 503 else 404)) s
  route_candidates setup s discovery id model (e ∷ es) =
      send router backend (is_pinned id) setup.reroutes s e es

  unfoldable pub route_model : Setup → State → Discovery → Option String → String → Run State
  unfolding route_candidates candidates
  route_model setup s discovery id model =
      if is_external_model setup.external_provider_registry model
      then answer (setup.external_reply model) s
      else route_candidates setup s discovery id model
          (candidates id model (get_endpoint_info discovery))

  unfoldable pub route_general_request : Setup → State → Discovery → HttpRequest → Run State
  unfolding route_model
  route_general_request setup s discovery request = elim request.body [
    | malformed ↦ answer (error_response 400) s
    | not_object ↦ answer (error_response 400) s
    | object none ↦ answer (error_response 400) s
    | object (some model) ↦
        route_model setup s discovery (request_endpoint request.id) (resolve setup.aliases model)
  ]

-- Some listed engine has the URL, serves the model, is awake, and is the named one if one is named.
abbrev pub serves : Option String → String → List EndpointInfo → String → Bool
serves id model endpoints u =
    any (λ ep. ep.url == u && (contains ep.model_names model && (has_id id ep && not ep.sleep)))
      endpoints

contains-candidates :
    (id : Option String) (model : String) (endpoints : List EndpointInfo) (u : String)
    → contains (urls (candidates id model endpoints)) u ≡ serves id model endpoints u
unfolding candidates contains
contains-candidates id model [] u = refl
contains-candidates id model (e ∷ es) u = ground (arith, contains-candidates id model es u)

module _ (router : Router) (laws : RouterLaws router) (backend : Backend) where
  open router use {State}
  open laws use {Valid}

  -- A request is only ever sent to engines that may serve it: with a policy that in a valid state
  -- chooses among the engines that it is given, each URL that is tried, failovers included, is
  -- that of a listed engine that has the requested model, its alias resolved, that is awake, and
  -- that is the one named by the client if it named one.
  pub tried_engines_serve :
      (setup : Setup) (s : State) (discovery : Discovery) (id : Option String) (model u : String)
      → Valid s
      → contains
          (route_general_request router backend setup s discovery
            (record { body = object (some model); id = id })).tried
          u
        ≡ true
      → serves (request_endpoint id) (resolve setup.aliases model) (get_endpoint_info discovery) u
        ≡ true
  unfolding route_general_request route_model route_candidates contains
  tried_engines_serve setup s discovery id model u v h =
      let m = resolve setup.aliases model in
      let found = candidates (request_endpoint id) m (get_endpoint_info discovery) in
      sym (contains-candidates (request_endpoint id) m (get_endpoint_info discovery) u)
      ∙ elim (Bool-cases (is_external_model setup.external_provider_registry m)) [
        | inl p ↦ absurd (ground (arith, p, h))
        | inr p ↦ in_candidates found (
            subst
              (λ b.
                contains
                  ((if b
                    then answer router backend (setup.external_reply m) s
                    else route_candidates router backend setup s discovery (request_endpoint id) m
                        found)).tried
                  u
                ≡ true)
              p h)
      ]
    where
      in_candidates :
          (es : List EndpointInfo)
          → contains
              (route_candidates router backend setup s discovery
                (request_endpoint id)
                (resolve setup.aliases model)
                es).tried
              u
            ≡ true
          → contains (urls es) u ≡ true
      in_candidates [] k = k
      in_candidates (e ∷ es) k =
          (send-tried router laws backend (is_pinned (request_endpoint id)) setup.reroutes s e es
              v).2
            u k
