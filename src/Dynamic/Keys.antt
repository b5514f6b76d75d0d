-- ===== src/Dynamic/Keys.antt =====
-- The keys of a configuration file that are no fields of the configuration.
use production_stack.Base.Names.{
  String, ◌≡◌, refl, ap, ◌∙◌, inl, inr, Bool, false, ◌&&◌, ◌||◌, Option, List, [], ◌∷◌, arith,
}
use production_stack.Base.Tests.{if◌then◌else◌, Bool-cases}
use production_stack.Base.Eq.{◌==◌, string_eq, contains}
use production_stack.Base.Json.{Json, Fields, end, field, lookup}
use production_stack.Base.Outcome.{raise, value_error}
use production_stack.Dynamic.{
  config_fields, build_config, is_field, all_recognized, from_config_dict,
}

-- The keys of one part of a file, and then those of another.
abbrev pub joined : Fields → Fields → Fields
joined end rest = rest
joined (field k v others) rest = field k v (joined others rest)

lookup-joined :
    (before rest : Fields) (key : String) (v : Json) (name : String)
    → (key == name) ≡ false
    → lookup (joined before (field key v rest)) name ≡ lookup (joined before rest) name
unfolding lookup
lookup-joined end rest key v name h = rw h refl
lookup-joined (field k w others) rest key v name h =
    ground (arith, lookup-joined others rest key v name h)

build_config-joined :
    (before rest : Fields) (key : String) (v : Json) (fields : List (String × Option Json))
    → is_field fields key ≡ false
    → build_config (joined before (field key v rest)) fields
      ≡ build_config (joined before rest) fields
unfolding build_config
build_config-joined before rest key v [] h = refl
build_config-joined before rest key v ((name, default) ∷ fields) h =
    let other : (key == name) ≡ false =
      ground (arith, h, string_eq.beq_iff key name, string_eq.beq_iff name key) in
    rw
      (
        lookup-joined before rest key v name other,
        build_config-joined before rest key v fields (ground (arith, h)),
      )
      refl

and_exchange : (a b c : Bool) → (a && (b && c)) ≡ (b && (a && c))
and_exchange a b c = ground arith

all_recognized-joined :
    (flags : List String) (before rest : Fields) (key : String) (v : Json)
    → is_field config_fields key ≡ false
    → all_recognized flags (joined before (field key v rest))
      ≡ (contains flags key && all_recognized flags (joined before rest))
unfolding all_recognized
all_recognized-joined flags end rest key v h = rw h refl
all_recognized-joined flags (field k w others) rest key v h =
    ap (λ t. (is_field config_fields k || contains flags k) && t)
      (all_recognized-joined flags others rest key v h)
    ∙ and_exchange (is_field config_fields k || contains flags k) (contains flags key) _

-- A key that is no field of the configuration, wherever it stands in the file: if it is a flag of the
-- command line, the file is read as if it were not there; if it is not, the whole file is refused.
pub from_config_dict_extra :
    (flags : List String) (before rest : Fields) (key : String) (v : Json)
    → is_field config_fields key ≡ false
    → from_config_dict flags (joined before (field key v rest)) ≡ (
        if contains flags key
        then from_config_dict flags (joined before rest)
        else raise value_error)
from_config_dict_extra flags before rest key v h = elim (Bool-cases (contains flags key)) [
  | inl p ↦
      unfold from_config_dict in
      rw
        (
          all_recognized-joined flags before rest key v h,
          p,
          build_config-joined before rest key v config_fields h,
        )
        refl
  | inr p ↦ unfold from_config_dict in rw (all_recognized-joined flags before rest key v h, p) refl
]
