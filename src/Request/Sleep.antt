-- ===== src/Request/Sleep.antt =====
-- `route_sleep_wakeup_request` of src/vllm_router/services/request_service/request.py: the request of an
-- operator to one engine, to sleep, to wake up, or to tell whether it sleeps. The engine's answer and
-- what comes of the label are arguments.
pub mod Target
use production_stack.Base.Names.{
  ℕ, String, Bool, true, false, not, Option, none, some, List, [], ◌∷◌,
}
use production_stack.Base.Tests.{leb, if◌then◌else◌}
use production_stack.Base.Eq.{◌==◌, string_eq}
use production_stack.Base.Lists.{filter}
use production_stack.Base.Dict
use production_stack.Base.Dict.{Dict}
use production_stack.Base.Json.{Json}
use production_stack.Base.Outcome.{Outcome, return, raise, Error, other_error}
use production_stack.Endpoint.{EndpointInfo}

-- An answer: its status and the JSON value of its body, if it has one; or an exception of the call.
pub data Answer : Type 0 where
  answered : ℕ → Outcome Json → Answer
  failed : Error → Answer

-- One request that the router has sent: the URL of the engine, the path, the parameters of the query,
-- and the body where there is one.
pub record Call : Type 0 where
  pub url : String
  pub path : String
  pub params : Dict String String
  pub body : Option Json

-- A change of the label of a pod that is asked for: it is added, or removed.
pub record Labelling : Type 0 where
  pub sleeping : Bool
  pub pod_name : Option String

pub data Reply : Type 0 where
  error_response : ℕ → Reply
  status_of : Json → Reply
  success : ℕ → Reply
  raised : Error → Reply

pub record Run : Type 0 where
  pub reply : Reply
  pub sent : List Call
  pub labellings : List Labelling

-- The body of the request: none, or what json.loads makes of it.
abbrev pub Body : Type 0
Body = Option (Outcome Json)

-- {k: v for k, v in query_params.items() if k != "id"}
unfoldable pub upstream_params : Dict String String → Dict String String
upstream_params query_params = filter (λ item. not (item.0 == "id")) query_params

-- What is done to the label, where the path asks for it.
abbrev pub labelling_for : String → Option String → List Labelling
labelling_for path pod_name =
    if path == "/sleep"
    then record { sleeping = true; pod_name = pod_name } ∷ []
    else if path == "/wake_up"
    then record { sleeping = false; pod_name = pod_name } ∷ []
    else []

abbrev pub after_labels : ℕ → List Labelling → (Labelling → Outcome (Unit {0})) → Reply
after_labels status [] relabel = success status
after_labels status (l ∷ ls) relabel = elim (relabel l) [
  | return u ↦ success status
  | raise e ↦ raised e
]

-- The answer to a POST; `raise_for_status` refuses a status from 400 on.
unfoldable pub after_post : Call → Option String → (Labelling → Outcome (Unit {0})) → Answer → Run
after_post call pod_name relabel (failed e) = record {
  reply = raised e;
  sent = call ∷ [];
  labellings = [];
}
after_post call pod_name relabel (answered status body) =
    if leb 400 status
    then record {
      reply = raised (other_error "ClientResponseError");
      sent = call ∷ [];
      labellings = [];
    }
    else record {
      reply = after_labels status (labelling_for call.path pod_name) relabel;
      sent = call ∷ [];
      labellings = labelling_for call.path pod_name;
    }

abbrev read_status : Outcome Json → Reply
read_status (return v) = status_of v
read_status (raise e) = raised e

unfoldable pub after_get : Call → Answer → Run
after_get call (failed e) = record { reply = raised e; sent = call ∷ []; labellings = [] }
after_get call (answered status body) = record {
  reply = if leb 400 status then raised (other_error "ClientResponseError") else read_status body;
  sent = call ∷ [];
  labellings = [];
}

module _ (engine : Call → Answer) (relabel : Labelling → Outcome (Unit {0})) where
  unfoldable pub post : EndpointInfo → String → Dict String String → Body → Run
  unfolding after_post
  post e path params (some (raise x)) = record { reply = raised x; sent = []; labellings = [] }
  post e path params (some (return v)) =
      let call : Call = record { url = e.url; path = path; params = params; body = some v } in
      after_post call e.pod_name relabel (engine call)
  post e path params none =
      let call : Call = record { url = e.url; path = path; params = params; body = none } in
      after_post call e.pod_name relabel (engine call)

  -- The request to the engine that has been found; "/is_sleeping" is a GET.
  unfoldable pub ask : EndpointInfo → String → Dict String String → Body → Run
  unfolding post after_get
  ask e path params body =
      let call : Call = record { url = e.url; path = path; params = params; body = none } in
      if path == "/is_sleeping" then after_get call (engine call) else post e path params body

  abbrev refused : Run
  refused = record { reply = error_response 400; sent = []; labellings = [] }

  unfoldable pub ask_first : String → Dict String String → Body → List EndpointInfo → Run
  unfolding ask
  ask_first path params body [] = refused
  ask_first path params body (e ∷ es) = ask e path params body

  unfoldable pub ask_target :
      String → Dict String String → Body → List EndpointInfo → Option String → Run
  unfolding ask_first upstream_params
  ask_target path query_params body endpoints none = refused
  ask_target path query_params body endpoints (some id) =
      ask_first path (upstream_params query_params) body (filter (λ e. e.id == id) endpoints)

  unfoldable pub route_sleep_wakeup_request :
      String → Dict String String → Body → List EndpointInfo → Run
  unfolding ask_target
  route_sleep_wakeup_request path query_params body endpoints =
      ask_target path query_params body endpoints (Dict.get query_params "id")
