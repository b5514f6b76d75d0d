-- ===== src/External.antt =====
-- `ExternalProviderManager` of src/vllm_router/external_providers/registry.py: which provider serves
-- a model of its own or an alias. An adapter is kept as the configuration that it was made from.
pub mod Owners
pub mod Validation
use production_stack.Base.Names.{
  ℕ, String, Bool, true, false, not, ◌&&◌, ◌||◌, Option, none, some, List, [], ◌∷◌, map,
}
use production_stack.Base.Tests.{if◌then◌else◌}
use production_stack.Base.Eq.{◌==◌, string_eq, contains}
use production_stack.Base.Lists.{is_empty}
use production_stack.Base.Dict
use production_stack.Base.Dict.{Dict}
use production_stack.Base.Outcome.{Outcome, return, raise, value_error}

pub record ExternalModel : Type 0 where
  pub id : String
  pub aliases : List String

pub record ExternalProviderConfig : Type 0 where
  pub name : String
  pub adapter_type : String
  pub models : List ExternalModel

-- The provider, its adapter, and the model's own name.
pub record Entry : Type 0 where
  pub provider_name : String
  pub adapter : ExternalProviderConfig
  pub canonical_id : String

pub record ExternalProviderManager : Type 0 where
  pub adapters : Dict String ExternalProviderConfig
  pub model_index : Dict String Entry

unfoldable pub init : ExternalProviderManager
init = record { adapters = []; model_index = [] }

-- Another provider has the name.
unfoldable pub conflicts : Dict String Entry → String → String → Bool
conflicts index model_id provider_name = elim (Dict.get index model_id) [
  | none ↦ false
  | some entry ↦ not (entry.provider_name == provider_name)
]

-- The names that a configuration registers, in the order of the two loops.
abbrev pub aliases_of : ExternalProviderConfig → String → List String → List (String × Entry)
aliases_of config canonical_id [] = []
aliases_of config canonical_id (a ∷ rest) =
    (a, record { provider_name = config.name; adapter = config; canonical_id = canonical_id })
    ∷ aliases_of config canonical_id rest

-- _register_model_id for one name after another, up to the first conflict
unfoldable pub register_all :
    Dict String Entry → List (String × Entry) → Outcome (Unit {0}) × Dict String Entry
unfolding conflicts
register_all index [] = (return tt, index)
register_all index (x ∷ rest) =
    if conflicts index x.0 x.1.provider_name
    then (raise value_error, index)
    else register_all (Dict.put index x.0 x.1) rest

unfoldable pub register_models :
    ExternalProviderConfig
    → Dict String Entry
    → List ExternalModel
    → Outcome (Unit {0}) × Dict String Entry
register_models config index [] = (return tt, index)
register_models config index (m ∷ ms) =
    let (o, index') = register_all index (aliases_of config m.id (m.id ∷ m.aliases)) in
    elim o [ return u ↦ register_models config index' ms | raise e ↦ (raise e, index') ]

-- `known_types` are the keys of ADAPTER_REGISTRY. What is indexed before a conflict stays indexed.
unfoldable pub register :
    List String
    → ExternalProviderManager
    → ExternalProviderConfig
    → Outcome (Unit {0}) × ExternalProviderManager
unfolding register_models
register known_types manager config =
    if contains known_types config.adapter_type
    then (let (o, index) = register_models config manager.model_index config.models in
        (
          o,
          record { adapters = Dict.put manager.adapters config.name config; model_index = index },
        ))
    else (raise value_error, manager)

unfoldable pub is_external_model : ExternalProviderManager → String → Bool
is_external_model manager model_id = Dict.has manager.model_index model_id

unfoldable pub lookup_adapter : ExternalProviderManager → String → Option ExternalProviderConfig
lookup_adapter manager model_id = elim (Dict.get manager.model_index model_id) [
  | none ↦ none
  | some entry ↦ some entry.adapter
]

unfoldable pub get_canonical_model_id : ExternalProviderManager → String → Option String
get_canonical_model_id manager model_id = elim (Dict.get manager.model_index model_id) [
  | none ↦ none
  | some entry ↦ some entry.canonical_id
]

unfoldable pub get_provider_name : ExternalProviderManager → String → Option String
get_provider_name manager model_id = elim (Dict.get manager.model_index model_id) [
  | none ↦ none
  | some entry ↦ some entry.provider_name
]

-- The entry is of the provider, and the provider does not serve its model.
abbrev pub is_stale : String → List String → Entry → Bool
is_stale provider_name available entry =
    entry.provider_name == provider_name && not (contains available entry.canonical_id)

unfoldable pub drop_stale : String → List String → Dict String Entry → Dict String Entry
drop_stale provider_name available [] = []
drop_stale provider_name available ((k, entry) ∷ index) =
    let rest = drop_stale provider_name available index in
    if is_stale provider_name available entry then rest else (k, entry) ∷ rest

-- The loop of validate_models; `fetch` is what each provider lists.
unfoldable pub validate :
    (String → List String) → List String → Dict String Entry → Dict String Entry
unfolding drop_stale
validate fetch [] index = index
validate fetch (p ∷ ps) index =
    validate fetch ps (if is_empty (fetch p) then index else drop_stale p (fetch p) index)

unfoldable pub validate_models :
    (String → List String) → ExternalProviderManager → ExternalProviderManager
unfolding validate
validate_models fetch manager = record manager {
  model_index = validate fetch (Dict.keys manager.adapters) manager.model_index;
}
