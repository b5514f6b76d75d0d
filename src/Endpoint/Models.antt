-- ===== src/Endpoint/Models.antt =====
-- The queries of `EndpointInfo` of src/vllm_router/service_discovery.py on the models of an engine: base
-- models have no parent, adapters have one. A missing table of models is an empty one.
use production_stack.Base.Names.{
  String, ◌≡◌, refl, inl, inr, Bool, true, false, not, ◌||◌, Option, none, some, List, [], ◌∷◌,
  arith,
}
use production_stack.Base.Tests.{if◌then◌else◌, Bool-cases}
use production_stack.Base.Eq.{◌==◌, string_eq, contains}
use production_stack.Base.Dict
use production_stack.Base.Dict.{Dict}
use production_stack.Endpoint.{ModelInfo, EndpointInfo}

-- not info.parent
abbrev pub is_base : ModelInfo → Bool
is_base info = elim info.parent [ none ↦ true | some parent ↦ parent == "" ]

-- info.parent == base_model
abbrev pub is_child_of : String → ModelInfo → Bool
is_child_of base_model info = elim info.parent [ none ↦ false | some parent ↦ parent == base_model ]

-- [model_id for model_id, info in model_info.items() if p(info)]
unfoldable pub ids_with : (ModelInfo → Bool) → Dict String ModelInfo → List String
ids_with p [] = []
ids_with p ((model_id, info) ∷ rest) =
    if p info then model_id ∷ ids_with p rest else ids_with p rest

unfoldable pub get_base_models : EndpointInfo → List String
unfolding ids_with
get_base_models e = ids_with is_base e.model_info

unfoldable pub get_adapters : EndpointInfo → List String
unfolding ids_with
get_adapters e = ids_with (λ info. not (is_base info)) e.model_info

unfoldable pub get_adapters_for_model : EndpointInfo → String → List String
unfolding ids_with
get_adapters_for_model e base_model = ids_with (is_child_of base_model) e.model_info

unfoldable pub has_model : EndpointInfo → String → Bool
has_model e model_id = contains e.model_names model_id

unfoldable pub get_model_info : EndpointInfo → String → Option ModelInfo
get_model_info e model_id = Dict.get e.model_info model_id

contains-ids_with :
    (d : Dict String ModelInfo) (p : ModelInfo → Bool) (m : String)
    → (contains (ids_with p d) m || contains (ids_with (λ info. not (p info)) d) m) ≡ Dict.has d m
unfolding ids_with contains Dict.has
contains-ids_with [] p m = refl
contains-ids_with ((j, info) ∷ d) p m = elim (Bool-cases (p info)) [
  | inl h ↦ rw h (ground (arith, contains-ids_with d p m))
  | inr h ↦ rw h (ground (arith, contains-ids_with d p m))
]

-- Every model of the table is a base model or an adapter, and nothing else is either.
pub base_models_or_adapters :
    (e : EndpointInfo) (m : String)
    → (contains (get_base_models e) m || contains (get_adapters e) m) ≡ Dict.has e.model_info m
unfolding get_base_models get_adapters
base_models_or_adapters e m = contains-ids_with e.model_info is_base m
