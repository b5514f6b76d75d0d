-- ===== src/Request/Failover.antt =====
-- The attempts loop of `route_general_request` of
-- src/vllm_router/services/request_service/request.py: one engine after another, until one answers.
pub mod Attempts
pub mod Liveness
use production_stack.Base.Names.{
  ℕ, zero, suc, ◌+◌, ◌≤◌, ◌<◌, String, ◌≡◌, refl, Bool, true, false, not, Option, none, some, List,
  [], ◌∷◌, arith,
}
use production_stack.Base.Eq.{◌==◌, string_eq, contains}
use production_stack.Base.Lists.{length, filter}
use production_stack.Base.Outcome.{Outcome, return, raise, Error}
use production_stack.Endpoint.{EndpointInfo, urls}

-- What a routing policy gives the request service: its state, and the choice among engines.
pub record Router : Type 1 where
  pub State : Type 0
  pub route : State → List EndpointInfo → Outcome String × State

-- How a call of a backend ends, as far as its first result: the status of its answer, or what is
-- raised. `connect_error` is one of _BACKEND_CONNECT_ERRORS, `timeout` one of the other timeouts.
-- A cancellation by the client is left out.
pub data Attempt : Type 0 where
  headers : ℕ → Attempt
  http_error : ℕ → String → Attempt
  connect_error timeout : Attempt
  other_failure : String → Attempt

-- The answer to the n-th attempt, sent to a URL.
abbrev pub Backend : Type 0
Backend = ℕ → String → Attempt

-- What the client gets: an error with its status, an answer streamed from an engine, or an exception.
pub data Reply : Type 0 where
  error_response : ℕ → Reply
  streaming : ℕ → String → Reply
  raised : Error → Reply

-- `last_error`
pub data Failure : Type 0 where
  connect : Failure
  other : String → Failure

-- The reply, the URLs that were tried, the latest first, and the state of the router.
pub record Run (S : Type 0) : Type 0 where
  pub reply : Reply
  pub tried : List String
  pub router_state : S

-- The exhaustion branch: 502 where the last attempt did not connect, or else its exception.
abbrev pub give_up : Failure → Reply
give_up connect = error_response 502
give_up (other e) = raised (Error.other_error e)

-- The body of one attempt; `retry` is the rest of the loop.
abbrev pub settle : {S : Type 0} → Attempt → String → List String → S → (Failure → Run S) → Run S
settle (headers status) url tried s retry = record {
  reply = streaming status url;
  tried = url ∷ tried;
  router_state = s;
}
settle (http_error status detail) url tried s retry = record {
  reply = raised (Error.http_exception status detail);
  tried = url ∷ tried;
  router_state = s;
}
settle connect_error url tried s retry = retry connect
settle timeout url tried s retry = record {
  reply = error_response 504;
  tried = url ∷ tried;
  router_state = s;
}
settle (other_failure e) url tried s retry = retry (other e)

-- The choice of an engine comes back, or its exception ends the request.
abbrev pub chosen : {S : Type 0} → Outcome String × S → List String → (String → S → Run S) → Run S
chosen (return url, s) tried use_server = use_server url s
chosen (raise x, s) tried use_server = record { reply = raised x; tried = tried; router_state = s }

-- [ep for ep in endpoints if ep.url not in error_urls]
unfoldable pub without : List String → List EndpointInfo → List EndpointInfo
without error_urls endpoints = filter (λ ep. not (contains error_urls ep.url)) endpoints

module _ (router : Router) (backend : Backend) where
  open router use {State, route}

  -- The engine of an attempt: the first one where the client has named it, or else the router's choice.
  unfoldable pub choose_server :
      Bool → State → EndpointInfo → List EndpointInfo → Outcome String × State
  choose_server true s e es = (return e.url, s)
  choose_server false s e es = route s (e ∷ es)

  -- The attempts from number `k` on, `n` of them at most. The URLs in `error_urls` have failed.
  unfoldable pub retries :
      List EndpointInfo → Bool → ℕ → ℕ → State → List String → Failure → Run State
  unfolding without choose_server
  retries endpoints pinned zero k s error_urls last_error = record {
    reply = give_up last_error;
    tried = error_urls;
    router_state = s;
  }
  retries endpoints pinned (suc n) k s error_urls last_error = elim (without error_urls endpoints) [
    | [] ↦ record { reply = give_up last_error; tried = error_urls; router_state = s }
    | e ∷ es ↦ chosen (choose_server pinned s e es) error_urls (λ url s'.
        settle (backend k url) url error_urls s'
          (λ f. retries endpoints pinned n (suc k) s' (url ∷ error_urls) f))
  ]

  -- The choice before the loop, and the loop; `reroutes` is max_instance_failover_reroute_attempts.
  unfoldable pub send : Bool → ℕ → State → EndpointInfo → List EndpointInfo → Run State
  unfolding retries choose_server
  send pinned reroutes s e es = chosen (choose_server pinned s e es) [] (λ url s'.
      settle (backend 0 url) url [] s' (λ f. retries (e ∷ es) pinned reroutes 1 s' (url ∷ []) f))
