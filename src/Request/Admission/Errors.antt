-- ===== src/Request/Admission/Errors.antt =====
-- When a request for a known body is answered 404 or 503 without any engine being asked.
use production_stack.Base.Names.{
  ℕ, zero, suc, String, ◌≡◌, refl, inl, inr, Bool, true, false, not, ◌&&◌, ◌||◌, Option, some, List,
  [], ◌∷◌, arith,
}
use production_stack.Base.Tests.{nat_beq}
use production_stack.Base.Lists.{is_empty}
use production_stack.Base.Outcome.{Outcome, return, raise, Error}
use production_stack.Endpoint.{EndpointInfo}
use production_stack.Discovery.{Discovery, get_endpoint_info, has_ever_seen_model}
use production_stack.External.{is_external_model}
use production_stack.Request.Failover.{
  Router, Backend, Attempt, headers, http_error, connect_error, timeout, other_failure, Failure,
  connect, other, Reply, error_response, streaming, raised, Run, give_up, settle, chosen, without,
  choose_server, retries, send,
}
use production_stack.Request.Failover.Attempts.{List-cases}
use production_stack.Request.Admission.{
  object, Setup, resolve, candidates, request_endpoint, is_pinned, route_candidates, route_model,
  route_general_request,
}

-- The client gets an error with the status, as an answer of the router or as an HTTPException that
-- it raises, which FastAPI answers with its status.
abbrev pub has_status : ℕ → Reply → Bool
has_status n (error_response m) = nat_beq m n
has_status n (streaming status u) = false
has_status n (raised (Error.http_exception m d)) = nat_beq m n
has_status n (raised e) = false

-- An HTTPException with one of the two statuses.
abbrev pub refusing : Error → Bool
refusing (Error.http_exception m d) = nat_beq m 404 || nat_beq m 503
refusing e = false

-- An attempt, or a choice, that ends with such an exception.
abbrev pub refusing_attempt : Attempt → Bool
refusing_attempt (http_error m d) = nat_beq m 404 || nat_beq m 503
refusing_attempt a = false

abbrev pub refusing_choice : Outcome String → Bool
refusing_choice (return u) = false
refusing_choice (raise e) = refusing e

-- One of the two statuses.
abbrev is_refusal : ℕ → Bool
is_refusal n = nat_beq n 404 || nat_beq n 503

give_up-status : (n : ℕ) (f : Failure) → is_refusal n ≡ true → has_status n (give_up f) ≡ false
give_up-status n connect h = ground (arith, h)
give_up-status n (other e) h = refl

raised-status :
    (n : ℕ) (e : Error) → is_refusal n ≡ true → refusing e ≡ false → has_status n (raised e) ≡ false
raised-status n (Error.http_exception m d) h q = ground (arith, h, q)
raised-status n Error.value_error h q = refl
raised-status n Error.key_error h q = refl
raised-status n Error.index_error h q = refl
raised-status n Error.attribute_error h q = refl
raised-status n Error.zero_division h q = refl
raised-status n (Error.other_error c) h q = refl

settle-status :
    {S : Type 0} (n : ℕ) (a : Attempt) (url : String) (tried : List String) (s : S)
    (retry : Failure → Run S)
    → is_refusal n ≡ true
    → refusing_attempt a ≡ false
    → ((f : Failure) → has_status n (retry f).reply ≡ false)
    → has_status n (settle a url tried s retry).reply ≡ false
settle-status n (headers status) url tried s retry h q k = refl
settle-status n (http_error status d) url tried s retry h q k = ground (arith, h, q)
settle-status n connect_error url tried s retry h q k = k connect
settle-status n timeout url tried s retry h q k = ground (arith, h)
settle-status n (other_failure e) url tried s retry h q k = k (other e)

chosen-status :
    {S : Type 0} (n : ℕ) (o : Outcome String × S) (tried : List String)
    (use_server : String → S → Run S)
    → is_refusal n ≡ true
    → refusing_choice o.0 ≡ false
    → ((u : String) (s : S) → has_status n (use_server u s).reply ≡ false)
    → has_status n (chosen o tried use_server).reply ≡ false
chosen-status n (return u, s) tried use_server h q k = k u s
chosen-status n (raise e, s) tried use_server h q k = raised-status n e h q

module _ (router : Router) (backend : Backend)
    (engines_pass : (k : ℕ) (u : String) → refusing_attempt (backend k u) ≡ false)
    (policy_passes : (s : router.State) (e : EndpointInfo) (es : List EndpointInfo)
      → refusing_choice (router.route s (e ∷ es)).0 ≡ false) where
  open router use {State}

  choice_passes :
      (pinned : Bool) (s : State) (e : EndpointInfo) (es : List EndpointInfo)
      → refusing_choice (choose_server router backend pinned s e es).0 ≡ false
  unfolding choose_server
  choice_passes true s e es = refl
  choice_passes false s e es = policy_passes s e es

  retries-status :
      (status : ℕ) (endpoints : List EndpointInfo) (pinned : Bool) (n k : ℕ) (s : State)
      (errs : List String) (f : Failure)
      → is_refusal status ≡ true
      → has_status status (retries router backend endpoints pinned n k s errs f).reply ≡ false
  unfolding retries
  retries-status status endpoints pinned zero k s errs f h = give_up-status status f h
  retries-status status endpoints pinned (suc n) k s errs f h =
      elim (List-cases (without errs endpoints)) [
        | inl p ↦ rw (p, retries) (give_up-status status f h)
        | inr (e, es, p) ↦
            rw (p, retries)
              (chosen-status status (choose_server router backend pinned s e es) errs _ h
                (choice_passes pinned s e es)
                (λ u s'.
                  settle-status status (backend k u) u errs s' _ h (engines_pass k u)
                    (λ g. retries-status status endpoints pinned n (suc k) s' (u ∷ errs) g h)))
      ]

  send-status :
      (status : ℕ) (pinned : Bool) (reroutes : ℕ) (s : State) (e : EndpointInfo)
      (es : List EndpointInfo)
      → is_refusal status ≡ true
      → has_status status (send router backend pinned reroutes s e es).reply ≡ false
  unfolding send
  send-status status pinned reroutes s e es h =
      chosen-status status (choose_server router backend pinned s e es) [] _ h
        (choice_passes pinned s e es)
        (λ u s'.
          settle-status status (backend 0 u) u [] s' _ h (engines_pass 0 u)
            (λ g. retries-status status (e ∷ es) pinned reroutes 1 s' (u ∷ []) g h))

  route_candidates-status :
      (setup : Setup) (s : State) (discovery : Discovery) (id : Option String) (model : String)
      (es : List EndpointInfo)
      → let reply = (route_candidates router backend setup s discovery id model es).reply in
        (has_status 404 reply ≡ (is_empty es && not (has_ever_seen_model discovery model)))
        × (has_status 503 reply ≡ (is_empty es && has_ever_seen_model discovery model))
  unfolding route_candidates
  route_candidates-status setup s discovery id model [] = (ground arith, ground arith)
  route_candidates-status setup s discovery id model (e ∷ es) = (
    send-status 404 (is_pinned id) setup.reroutes s e es refl,
    send-status 503 (is_pinned id) setup.reroutes s e es refl,
  )

  -- Not found or unavailable: where neither the routing policy nor an attempt raises an HTTPException
  -- with status 404 or 503, the client gets 404, as an answer or as an exception, for a model that no
  -- external provider serves, just when no engine may serve it and the discovery has never seen it,
  -- and 503 just when no engine may serve it and it was seen before. The failover loop itself makes
  -- neither status, however engines fail. An engine's own answer is passed on whatever its status,
  -- and does not count as an error of the router.
  pub not_found_or_unavailable :
      (setup : Setup) (s : State) (discovery : Discovery) (id : Option String) (model : String)
      → is_external_model setup.external_provider_registry (resolve setup.aliases model) ≡ false
      → let reply =
          (route_general_request router backend setup s discovery
            (record { body = object (some model); id = id })).reply in
        let m = resolve setup.aliases model in
        let none_left =
          is_empty (candidates (request_endpoint id) m (get_endpoint_info discovery)) in
        (has_status 404 reply ≡ (none_left && not (has_ever_seen_model discovery m)))
        × (has_status 503 reply ≡ (none_left && has_ever_seen_model discovery m))
  unfolding route_general_request route_model
  not_found_or_unavailable setup s discovery id model h = rw h (
      route_candidates-status setup s discovery (request_endpoint id) (resolve setup.aliases model)
        (candidates (request_endpoint id) (resolve setup.aliases model)
          (get_endpoint_info discovery)))
