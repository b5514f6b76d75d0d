-- ===== src/Parsers/Arguments.antt =====
-- The checks on the command line, src/vllm_router/parsers/parser.py, and the model types that they
-- know, src/vllm_router/utils.py. The sample rates are floating-point numbers, and an argument.
use production_stack.Base.Names.{
  String, Bool, true, false, not, ◌&&◌, ◌||◌, Option, none, some, List, [], ◌∷◌,
}
use production_stack.Base.Tests.{if◌then◌else◌}
use production_stack.Base.Eq.{◌==◌, string_eq, contains}
use production_stack.Base.Int.{ℤ, pos, ltb_ℤ}
use production_stack.Base.Outcome.{
  Outcome, return, raise, ◌>>=◌, value_error, key_error, other_error,
}
use production_stack.Parsers.{split}

-- ModelType.get_all_fields()
abbrev pub all_models : List String
all_models =
    "chat" ∷ "completion" ∷ "embeddings" ∷ "rerank" ∷ "score" ∷ "transcription" ∷ "vision"
    ∷ "messages" ∷ []

-- A name that is no model type is a KeyError of the enumeration.
unfoldable pub get_url : String → Outcome String
get_url model_type =
    if model_type == "chat" || model_type == "vision"
    then return "/v1/chat/completions"
    else if model_type == "completion"
    then return "/v1/completions"
    else if model_type == "embeddings"
    then return "/v1/embeddings"
    else if model_type == "rerank"
    then return "/v1/rerank"
    else if model_type == "score"
    then return "/v1/score"
    else if model_type == "transcription"
    then return "/v1/audio/transcriptions"
    else if model_type == "messages"
    then return "/v1/messages"
    else raise key_error

-- The arguments that are checked, of which the sample rates have the type Rate.
pub record Arguments (Rate : Type 0) : Type 0 where
  pub routing_logic : Option String
  pub service_discovery : Option String
  pub external_providers_config : Option String
  pub static_backends : Option String
  pub static_models : Option String
  pub static_model_types : Option String
  pub static_backend_health_checks : Bool
  pub k8s_port : Option ℤ
  pub session_key : Option String
  pub log_stats : Bool
  pub log_stats_interval : ℤ
  pub engine_stats_interval : ℤ
  pub request_stats_window : ℤ
  pub sentry_traces_sample_rate : Rate
  pub sentry_profile_session_sample_rate : Rate

-- Whether a text is given, that is neither `None` nor empty.
abbrev pub given : Option String → Bool
given none = false
given (some t) = not (t == "")

abbrev pub is_none {ℓ} : {A : Type ℓ} → Option A → Bool
is_none none = true
is_none (some a) = false

abbrev pub is_text : Option String → String → Bool
is_text none t = false
is_text (some s) t = s == t

-- if wrong: raise ValueError(...)
abbrev pub refuse_if : Bool → Outcome (Unit {0})
refuse_if wrong = if wrong then raise value_error else return tt

abbrev pub supported : List String → Outcome (Unit {0})
supported [] = return tt
supported (model_type ∷ rest) =
    if contains all_models model_type then supported rest else raise value_error

unfoldable pub validate_static_model_types : Option String → Outcome (Unit {0})
unfolding split
validate_static_model_types none = raise value_error
validate_static_model_types (some model_types) = supported (split b',' model_types)

-- sys.exit(1)
abbrev pub exit {ℓ} : {A : Type ℓ} → Outcome A
exit = raise (other_error "SystemExit")

module _ {Rate : Type 0} where
  unfoldable pub verify_required_args_provided : Arguments Rate → Outcome (Arguments Rate)
  verify_required_args_provided args =
      if not (given args.routing_logic)
      then exit
      else if given args.service_discovery
      then return args
      else if not (given args.external_providers_config)
      then exit
      else return (record args { service_discovery = some "external-only" })

  unfoldable pub validate_static : Arguments Rate → Outcome (Unit {0})
  validate_static args =
      if is_text args.service_discovery "static"
      then (refuse_if (is_none args.static_backends) >>= λ _.
          refuse_if (is_none args.static_models) >>= λ _.
          if args.static_backend_health_checks
          then validate_static_model_types args.static_model_types
          else return tt)
      else return tt

  -- not (0.0 <= rate <= 1.0), where `zero`, `one` and `at_most` are those of the numbers
  abbrev pub no_share : (Rate → Rate → Bool) → Rate → Rate → Rate → Bool
  no_share at_most zero one rate = not (at_most zero rate && at_most rate one)

  unfoldable pub validate_values :
      (Rate → Rate → Bool) → Rate → Rate → Arguments Rate → Outcome (Unit {0})
  validate_values at_most zero one args =
      refuse_if (is_text args.service_discovery "k8s" && is_none args.k8s_port) >>= λ _.
      refuse_if (is_text args.routing_logic "session" && is_none args.session_key) >>= λ _.
      refuse_if (args.log_stats && not (ltb_ℤ (pos 0) args.log_stats_interval)) >>= λ _.
      refuse_if (not (ltb_ℤ (pos 0) args.engine_stats_interval)) >>= λ _.
      refuse_if (not (ltb_ℤ (pos 0) args.request_stats_window)) >>= λ _.
      refuse_if (no_share at_most zero one args.sentry_traces_sample_rate) >>= λ _.
      refuse_if (no_share at_most zero one args.sentry_profile_session_sample_rate)

  -- The arguments are changed in place, so they are the result.
  unfoldable pub validate_args :
      (Rate → Rate → Bool) → Rate → Rate → Arguments Rate → Outcome (Arguments Rate)
  unfolding verify_required_args_provided
  validate_args at_most zero one given_args = verify_required_args_provided given_args >>= λ args.
      validate_static args >>= λ _. validate_values at_most zero one args >>= λ _. return args
