-- ===== src/Parsers/Accepted.antt =====
-- What the checks on the command line let through.
use production_stack.Base.Names.{
  String, ◌≡◌, refl, ap, ◌∙◌, sym, inl, inr, Bool, true, ◌&&◌, Option, none, some, List, [], ◌∷◌,
  arith,
}
use production_stack.Base.Tests.{if◌then◌else◌, Bool-cases}
use production_stack.Base.Eq.{◌==◌, string_eq, contains}
use production_stack.Base.Outcome.{is_return, bind-return, return}
use production_stack.Parsers.{split}
use production_stack.Parsers.Arguments.{
  Arguments, all_models, get_url, given, supported, validate_static_model_types,
  verify_required_args_provided, validate_static, validate_args,
}

beq_comm : (s t : String) → (s == t) ≡ (t == s)
beq_comm s t = ground (arith, string_eq.beq_iff s t, string_eq.beq_iff t s)

-- Just the model types have an URL.
is_return-get_url : (t : String) → is_return (get_url t) ≡ contains all_models t
unfolding contains get_url
is_return-get_url t =
    rw
      (
        beq_comm t "chat",
        beq_comm t "completion",
        beq_comm t "embeddings",
        beq_comm t "rerank",
        beq_comm t "score",
        beq_comm t "transcription",
        beq_comm t "vision",
        beq_comm t "messages",
      )
      (ground arith)

-- Whether all of them have an URL.
abbrev pub have_urls : List String → Bool
have_urls [] = true
have_urls (t ∷ types) = is_return (get_url t) && have_urls types

have_urls-supported : (types : List String) → supported types ≡ return tt → have_urls types ≡ true
have_urls-supported [] h = refl
have_urls-supported (t ∷ types) h = elim (Bool-cases (contains all_models t)) [
  | inl known ↦
      ground
        (arith, known, is_return-get_url t, have_urls-supported types (ground (arith, h, known)))
  | inr unknown ↦ absurd (ground (arith, h, unknown))
]

module _ {Rate : Type 0} where
  verified-static :
      (args checked : Arguments Rate)
      → verify_required_args_provided args ≡ return checked
      → args.service_discovery ≡ some "static"
      → checked ≡ args
  unfolding verify_required_args_provided
  verified-static args checked h s = ground (arith, h, s)

  validate_static-types :
      (args : Arguments Rate)
      → validate_static args ≡ return tt
      → args.service_discovery ≡ some "static"
      → args.static_backend_health_checks ≡ true
      → validate_static_model_types args.static_model_types ≡ return tt
  unfolding validate_static
  validate_static-types args h s c = ground (arith, h, s, c)

validate_static_model_types-eq :
    (o : Option String)
    → validate_static_model_types o ≡ return tt
    → (types : String) × (o ≡ some types) × (supported (split b',' types) ≡ return tt)
unfolding validate_static_model_types
validate_static_model_types-eq none h = absurd (ground (arith, h))
validate_static_model_types-eq (some types) h = (types, refl, h)

module _ {Rate : Type 0} (at_most : Rate → Rate → Bool) (zero one : Rate) where
  -- When the checks accept arguments that ask for static discovery with health checks, model types
  -- are given, and every one of them has the URL that a health check is sent to.
  pub accepted_types_have_urls :
      (args checked : Arguments Rate)
      → validate_args at_most zero one args ≡ return checked
      → args.service_discovery ≡ some "static"
      → args.static_backend_health_checks ≡ true
      → (types : String) × (args.static_model_types ≡ some types)
        × (have_urls (split b',' types) ≡ true)
  unfolding validate_args
  accepted_types_have_urls args checked h s c =
      let (same, v, rest) = bind-return (verify_required_args_provided args) _ checked h in
      let (u, w, more) = bind-return (validate_static same) _ checked rest in
      let kept : validate_static args ≡ return u =
        ap validate_static (sym (verified-static args same v s)) ∙ w in
      let (types, some_types, all) =
        validate_static_model_types-eq args.static_model_types
          (validate_static-types args kept s c) in
      (types, some_types, have_urls-supported (split b',' types) all)

  -- What verify_required_args_provided lets pass is what was given, but that the discovery is
  -- `external-only` when none was named.
  accepted_discovery :
      (args checked : Arguments Rate)
      → verify_required_args_provided args ≡ return checked
      → checked ≡ (
          if given args.service_discovery
          then args
          else record args { service_discovery = some "external-only" })
  unfolding verify_required_args_provided
  accepted_discovery args checked h = ground (arith, h)
