-- ===== src/Examples/Commands.antt =====
-- Examples on the command line; a rate is given in thousandths.
use production_stack.Base.Names.{ℕ, String, ◌≡◌, refl, true, false, none, some}
use production_stack.Base.Tests.{leb}
use production_stack.Base.Eq.{string_eq, contains}
use production_stack.Base.Int.{pos}
use production_stack.Base.Outcome.{return, raise, value_error}
use production_stack.Parsers.{split}
use production_stack.Parsers.Arguments.{
  Arguments, validate_args, validate_static, validate_values, validate_static_model_types,
  verify_required_args_provided,
}
use production_stack.Parsers.Accepted.{have_urls, accepted_types_have_urls}

abbrev static_arguments : Arguments ℕ
static_arguments = record {
  routing_logic = some "roundrobin";
  service_discovery = some "static";
  external_providers_config = none;
  static_backends = some "http://a,http://b";
  static_models = some "llama,bge";
  static_model_types = some "chat,embeddings";
  static_backend_health_checks = true;
  k8s_port = some (pos 8000);
  session_key = none;
  log_stats = false;
  log_stats_interval = pos 10;
  engine_stats_interval = pos 30;
  request_stats_window = pos 60;
  sentry_traces_sample_rate = 100;
  sentry_profile_session_sample_rate = 1000;
}

accepted : validate_args leb 0 1000 static_arguments ≡ return static_arguments
unfolding validate_args verify_required_args_provided validate_static validate_values
    validate_static_model_types split contains
accepted = refl

accepted_types_have_urls_example :
    (types : String) × (static_arguments.static_model_types ≡ some types)
    × (have_urls (split b',' types) ≡ true)
accepted_types_have_urls_example =
    accepted_types_have_urls leb 0 1000 static_arguments static_arguments accepted refl refl

-- A model type that is misspelt is refused.
misspelt :
    validate_args leb 0 1000
      (record static_arguments { static_model_types = some "chat,embedding" })
    ≡ raise value_error
unfolding validate_args verify_required_args_provided validate_static validate_values
    validate_static_model_types split contains
misspelt = refl
