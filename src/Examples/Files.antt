-- ===== src/Examples/Files.antt =====
-- Examples on configuration files.
use production_stack.Base.Names.{String, ◌≡◌, refl, true, false, none, some, List, [], ◌∷◌}
use production_stack.Base.Tests.{if◌then◌else◌}
use production_stack.Base.Eq.{string_eq, contains}
use production_stack.Base.Int.{pos}
use production_stack.Base.Dict.{Dict}
use production_stack.Base.Json.{Fields, end, field, str, int}
use production_stack.Base.Outcome.{return, raise, ◌>>=◌, value_error}
use production_stack.Parsers.{
  Details, parse_comma_separated_args, parse_static_urls, generate_static_backends,
  generate_static_models,
}
use production_stack.Parsers.Paired.{served, firsts, seconds, generate_then_parse}
use production_stack.Discovery.Service.{external_only_service}
use production_stack.Routing.Factory.{no_routers}
use production_stack.Dynamic.{Watcher, Environment, from_config_dict, watch}
use production_stack.Dynamic.Keys.{joined, from_config_dict_extra}
use production_stack.Dynamic.Reload.{Ticked, watch-Ticked}

abbrev models : Dict String Details
models =
    (
      "llama",
      record {
        static_backends = some ("http://a" ∷ "http://b" ∷ []);
        static_model_type = some "chat";
      },
    )
    ∷ ("phi", record { static_backends = some ("http://c" ∷ []); static_model_type = none })
    ∷ []

generate_then_parse_example :
    (parse_static_urls (λ url. true) (generate_static_backends models) ≡ firsts (served models))
    × (parse_comma_separated_args (some (generate_static_models models))
        ≡ some (seconds (served models)))
generate_then_parse_example = generate_then_parse (λ url. true) models refl refl refl refl

abbrev flags : List String
flags = "host" ∷ "backend_read_timeout" ∷ []

abbrev file : Fields
file = field "service_discovery" (str "static") (field "routing_logic" (str "session") end)

from_config_dict_extra_example :
    from_config_dict flags (joined file (field "backend_read_timeout" (int (pos 3)) end)) ≡ (
      if contains flags "backend_read_timeout"
      then from_config_dict flags (joined file end)
      else raise value_error)
from_config_dict_extra_example =
    from_config_dict_extra flags file end "backend_read_timeout" (int (pos 3)) refl

abbrev environment : Environment
environment = record {
  around = record { engines_id = []; time = 0; connect = λ a. return tt };
  start_controller = λ arguments. return tt;
  close = λ router. return tt;
  import_callbacks = λ location. return tt;
  validate_url = λ url. true;
  flags = flags;
  same = λ a b. false;
}

abbrev watcher : Watcher
watcher = record {
  current_config = end;
  app = record {
    service = record { current = some external_only_service; closed = [] };
    registry = no_routers;
    router = none;
    callbacks = none;
  };
}

watch-Ticked_example :
    Ticked environment watcher
      (return file >>= from_config_dict flags)
      (watch environment watcher (return file))
watch-Ticked_example = watch-Ticked environment watcher (return file)
