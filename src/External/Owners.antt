-- ===== src/External/Owners.antt =====
-- A name keeps the provider that it was first registered for.
use production_stack.Base.Names.{
  String, ◌≡◌, refl, inl, inr, ◌⊎◌, false, Option, none, some, List, [], ◌∷◌, arith,
}
use production_stack.Base.Tests.{Bool-cases, Option-cases}
use production_stack.Base.Eq.{◌==◌, string_eq, contains}
use production_stack.Base.Dict
use production_stack.Base.Dict.{Dict, get-put}
use production_stack.Base.Outcome.{Error, Outcome, return, raise}
use production_stack.External.{
  ExternalModel, ExternalProviderConfig, Entry, ExternalProviderManager, conflicts, aliases_of,
  register_all, register_models, register, get_provider_name,
}

abbrev owner : Dict String Entry → String → Option String
owner index m = elim (Dict.get index m) [ none ↦ none | some entry ↦ some entry.provider_name ]

owner-put :
    (index : Dict String Entry) (k : String) (entry : Entry) (m p : String)
    → conflicts index k entry.provider_name ≡ false
    → owner index m ≡ some p
    → owner (Dict.put index k entry) m ≡ some p
unfolding conflicts
owner-put index k entry m p free h = elim (Bool-cases (k == m)) [
  | inl q ↦ elim (Option-cases (Dict.get index k)) [
    | inl g ↦ ground (arith, h, free, q, g, get-put index k entry m, string_eq.beq_iff k m)
    | inr (old, g) ↦ ground (
      arith,
      h,
      free,
      q,
      g,
      get-put index k entry m,
      string_eq.beq_iff k m,
      string_eq.beq_iff old.provider_name entry.provider_name,
    )
  ]
  | inr q ↦ ground (arith, h, q, get-put index k entry m)
]

owner-register_all :
    (index : Dict String Entry) (xs : List (String × Entry)) (m p : String)
    → owner index m ≡ some p
    → owner (register_all index xs).1 m ≡ some p
unfolding register_all
owner-register_all index [] m p h = h
owner-register_all index (x ∷ xs) m p h =
    elim (Bool-cases (conflicts index x.0 x.1.provider_name)) [
      | inl q ↦ rw q h
      | inr q ↦
          rw q
            (owner-register_all (Dict.put index x.0 x.1) xs m p (owner-put index x.0 x.1 m p q h))
    ]

Outcome-cases : (o : Outcome (Unit {0})) → (o ≡ return tt) ⊎ ((e : Error) × (o ≡ raise e))
Outcome-cases (return tt) = inl refl
Outcome-cases (raise e) = inr (e, refl)

owner-register_models :
    (config : ExternalProviderConfig) (index : Dict String Entry) (ms : List ExternalModel)
    (m p : String)
    → owner index m ≡ some p
    → owner (register_models config index ms).1 m ≡ some p
unfolding register_models
owner-register_models config index [] m p h = h
owner-register_models config index (x ∷ xs) m p h =
    let names : List (String × Entry) = aliases_of config x.id (x.id ∷ x.aliases) in
    let step : owner (register_all index names).1 m ≡ some p =
      owner-register_all index names m p h in
    elim (Outcome-cases (register_all index names).0) [
      | inl q ↦
          rw (register_models, q)
            (owner-register_models config (register_all index names).1 xs m p step)
      | inr (e, q) ↦ rw (register_models, q) step
    ]

-- A registration, whether it succeeds or raises, takes no model from a provider: a model name or
-- alias that had a provider has the same one behind it.
pub get_provider_name-register :
    (known_types : List String) (manager : ExternalProviderManager)
    (config : ExternalProviderConfig) (m p : String)
    → get_provider_name manager m ≡ some p
    → get_provider_name (register known_types manager config).1 m ≡ some p
unfolding get_provider_name register
get_provider_name-register known_types manager config m p h =
    elim (Bool-cases (contains known_types config.adapter_type)) [
      | inl q ↦ rw q (owner-register_models config manager.model_index config.models m p h)
      | inr q ↦ rw q h
    ]
