-- ===== src/External/Validation.antt =====
-- What the validation of the registered models leaves in the index.
use production_stack.Base.Names.{
  String, ◌≡◌, sym, ◌∙◌, subst, inl, inr, true, false, some, List, [], ◌∷◌, arith,
}
use production_stack.Base.Tests.{Bool-cases, Option-cases}
use production_stack.Base.Eq.{◌==◌, string_eq, contains}
use production_stack.Base.Lists.{All, is_empty}
use production_stack.Base.Dict
use production_stack.Base.Dict.{Dict, contains-keys}
use production_stack.External.{
  ExternalProviderManager, Entry, is_stale, drop_stale, validate, validate_models,
  get_provider_name, get_canonical_model_id,
}

-- No entry is one of the provider that is missing from its list.
abbrev Fresh : String → List String → Dict String Entry → Type 0
Fresh p available index = All (λ x. is_stale p available x.1 ≡ false) index

drop_stale-Fresh :
    (p : String) (available : List String) (index : Dict String Entry)
    → Fresh p available (drop_stale p available index)
unfolding drop_stale
drop_stale-Fresh p available [] = tt
drop_stale-Fresh p available ((k, entry) ∷ index) = elim (Bool-cases (is_stale p available entry)) [
  | inl q ↦ rw q (drop_stale-Fresh p available index)
  | inr q ↦ rw q (q, drop_stale-Fresh p available index)
]

drop_stale-keeps :
    (q p : String) (other available : List String) (index : Dict String Entry)
    → Fresh p available index
    → Fresh p available (drop_stale q other index)
unfolding drop_stale
drop_stale-keeps q p other available [] h = tt
drop_stale-keeps q p other available ((k, entry) ∷ index) h =
    elim (Bool-cases (is_stale q other entry)) [
      | inl s ↦ rw s (drop_stale-keeps q p other available index h.1)
      | inr s ↦ rw s (h.0, drop_stale-keeps q p other available index h.1)
    ]

validate-keeps :
    (fetch : String → List String) (ps : List String) (p : String) (index : Dict String Entry)
    → Fresh p (fetch p) index
    → Fresh p (fetch p) (validate fetch ps index)
unfolding validate
validate-keeps fetch [] p index h = h
validate-keeps fetch (q ∷ ps) p index h = elim (Bool-cases (is_empty (fetch q))) [
  | inl e ↦ rw e (validate-keeps fetch ps p index h)
  | inr e ↦ rw e (
      validate-keeps fetch ps p (drop_stale q (fetch q) index)
        (drop_stale-keeps q p (fetch q) (fetch p) index h))
]

validate-Fresh :
    (fetch : String → List String) (ps : List String) (p : String) (index : Dict String Entry)
    → is_empty (fetch p) ≡ false
    → contains ps p ≡ true
    → Fresh p (fetch p) (validate fetch ps index)
unfolding validate contains
validate-Fresh fetch [] p index live h = absurd (ground (arith, h))
validate-Fresh fetch (q ∷ ps) p index live h = elim (Bool-cases (q == p)) [
  | inl e ↦
      subst (λ r. Fresh p (fetch p) (validate fetch (r ∷ ps) index))
        (sym ((string_eq.beq_iff q p).0 e))
        (rw (validate, live)
          (validate-keeps fetch ps p (drop_stale p (fetch p) index)
            (drop_stale-Fresh p (fetch p) index)))
  | inr e ↦ validate-Fresh fetch ps p _ live (ground (arith, e, h))
]

get-Fresh :
    (p m : String) (available : List String) (index : Dict String Entry) (entry : Entry)
    → Fresh p available index
    → Dict.get index m ≡ some entry
    → is_stale p available entry ≡ false
unfolding Dict.get
get-Fresh p m available [] entry h g = absurd (ground (arith, g))
get-Fresh p m available ((k, e) ∷ index) entry h g = elim (Bool-cases (k == m)) [
  | inl q ↦ ground (arith, q, g, h.0)
  | inr q ↦ get-Fresh p m available index entry h.1 (ground (arith, q, g))
]

-- After a validation, a name that still belongs to a registered provider, whose live list could be
-- fetched, resolves to a model of that list.
pub validate_models_live :
    (fetch : String → List String) (manager : ExternalProviderManager) (m p : String)
    → Dict.has manager.adapters p ≡ true
    → is_empty (fetch p) ≡ false
    → get_provider_name (validate_models fetch manager) m ≡ some p
    → (c : String) × (get_canonical_model_id (validate_models fetch manager) m ≡ some c)
      × (contains (fetch p) c ≡ true)
unfolding validate_models get_provider_name get_canonical_model_id
validate_models_live fetch manager m p known live h =
    let ps : List String = Dict.keys manager.adapters in
    let index : Dict String Entry = validate fetch ps manager.model_index in
    let fresh =
      validate-Fresh fetch ps p manager.model_index live
        (contains-keys manager.adapters p ∙ known) in
    elim (Option-cases (Dict.get index m)) [
      | inl q ↦ absurd (ground (arith, q, h))
      | inr (entry, q) ↦ (
        entry.canonical_id,
        ground (arith, q),
        ground (
          arith,
          q,
          h,
          get-Fresh p m (fetch p) index entry fresh q,
          string_eq.beq_iff entry.provider_name p,
        ),
      )
    ]
