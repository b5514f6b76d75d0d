-- ===== src/Discovery/Static/Health.antt =====
-- After a round of health checks, the endpoints of the static discovery are those that answered.
use production_stack.Base.Names.{
  ℕ, zero, suc, ◌+◌, ◌<◌, String, ◌≡◌, refl, ap, ◌∙◌, inl, inr, Bool, true, false, not, ◌&&◌, ◌||◌,
  Option, none, some, List, [], ◌∷◌, arith,
}
use production_stack.Base.Tests.{Bool-cases}
use production_stack.Base.Eq.{◌==◌, string_eq, contains}
use production_stack.Base.Lists.{length, get_elem?, any}
use production_stack.Base.Outcome.{return}
use production_stack.Endpoint.{EndpointInfo}
use production_stack.Discovery.Static.{
  StaticServiceDiscovery, Probe, get_model_endpoint_hash, probe_all, get_unhealthy_endpoint_hashes,
  check_model_health, probe_typed, after_round, label_at, id_at, static_endpoint, endpoints_from,
  get_endpoint_info,
}

-- A pair of the configuration; an endpoint for the pair.
abbrev pub configured : List String → List String → String → String → Bool
configured (url ∷ urls) (model ∷ models) u m =
    (url == u && model == m) || configured urls models u m
configured urls models u m = false

abbrev pub listed : List EndpointInfo → String → String → Bool
listed infos u m = any (λ e. e.url == u && contains e.model_names m) infos

-- Each list of the configuration that is indexed is as long as the list of URLs.
abbrev pub Labels : Option (List String) → ℕ → Type 0
Labels none n = Unit
Labels (some []) n = Unit
Labels (some (l ∷ ls)) n = length (l ∷ ls) ≡ n

get_elem?-some :
    (xs : List String) (i : ℕ) → i < length xs → (x : String) × (get_elem? xs i ≡ some x)
get_elem?-some [] i h = absurd (omega (arith, h))
get_elem?-some (x ∷ xs) zero h = (x, refl)
get_elem?-some (x ∷ xs) (suc i) h = get_elem?-some xs i (omega (arith, h))

id_at-return :
    (ids : List String) (i : ℕ) → i < length ids → (id : String) × (id_at ids i ≡ return id)
id_at-return ids i h = let (x, p) = get_elem?-some ids i h in (x, rw (p, id_at) refl)

label_at-return :
    (labels : Option (List String)) (n i : ℕ)
    → Labels labels n
    → i < n
    → (label : String) × (label_at labels i ≡ return label)
label_at-return none n i h k = ("default", refl)
label_at-return (some []) n i h k = ("default", refl)
label_at-return (some (l ∷ ls)) n i h k =
    let (x, p) = get_elem?-some (l ∷ ls) i (omega (arith, h, k)) in (x, rw (p, label_at) refl)

module _ (md5 : String → String) where
  -- Every model whose text has the same digest answered its probe.
  abbrev pub answering :
      (String → String → String → Bool) → String → List String → List String → List String → Bool
  answering healthy hash (url ∷ urls) (model ∷ models) (type ∷ types) =
      (healthy url model type || not (get_model_endpoint_hash md5 url model == hash))
      && answering healthy hash urls models types
  answering healthy hash urls models types = true

  probe_all-return :
      (healthy : String → String → String → Bool) (urls models types : List String)
      → (found : List String) × (probe_all md5 (λ u m t. return (healthy u m t)) urls models types
          ≡ return found)
        × ((hash : String) → contains found hash ≡ not (answering healthy hash urls models types))
  unfolding probe_all contains
  probe_all-return healthy [] models types = ([], refl, λ h. refl)
  probe_all-return healthy (u ∷ us) [] types = ([], refl, λ h. refl)
  probe_all-return healthy (u ∷ us) (m ∷ ms) [] = ([], refl, λ h. refl)
  probe_all-return healthy (u ∷ us) (m ∷ ms) (t ∷ ts) =
      let (found, p, q) = probe_all-return healthy us ms ts in
      elim (Bool-cases (healthy u m t)) [
        | inl a ↦ (found, rw (a, p) refl, λ h. ground (arith, a, q h))
        | inr a ↦
            (get_model_endpoint_hash md5 u m ∷ found, rw (a, p) refl, λ h. ground (arith, a, q h))
      ]

  module _ (s : StaticServiceDiscovery) (urls models : List String) (infos : List EndpointInfo)
      (url model u m : String) where
    abbrev sound : String → String → Bool
    sound a b = not (contains s.unhealthy_endpoint_hashes (get_model_endpoint_hash md5 a b))

    same_pair : (url == u && model == m) ≡ true → sound url model ≡ sound u m
    same_pair h =
        let p : url ≡ u = ground (arith, h, string_eq.beq_iff url u) in
        let q : model ≡ m = ground (arith, h, string_eq.beq_iff model m) in cc

    skipped :
        contains s.unhealthy_endpoint_hashes (get_model_endpoint_hash md5 url model) ≡ true
        → listed infos u m ≡ (configured urls models u m && sound u m)
        → listed infos u m ≡ (configured (url ∷ urls) (model ∷ models) u m && sound u m)
    skipped a h = elim (Bool-cases (url == u && model == m)) [
      | inl p ↦ ground (arith, same_pair p, h, a)
      | inr p ↦ ground (arith, p, h)
    ]

    kept :
        contains s.unhealthy_endpoint_hashes (get_model_endpoint_hash md5 url model) ≡ false
        → listed infos u m ≡ (configured urls models u m && sound u m)
        → ((url == u && contains (model ∷ []) m) || listed infos u m)
          ≡ (configured (url ∷ urls) (model ∷ models) u m && sound u m)
    unfolding contains
    kept a h = elim (Bool-cases (url == u && model == m)) [
      | inl p ↦ ground (arith, same_pair p, h, a)
      | inr p ↦ ground (arith, p, h)
    ]

  endpoints_from-return :
      (s : StaticServiceDiscovery) (now n i : ℕ) (urls models : List String)
      → Labels s.model_labels n
      → length s.engines_id ≡ n
      → i + length urls ≡ n
      → (infos : List EndpointInfo) × (endpoints_from md5 s now i urls models ≡ return infos)
        × ((u m : String)
            → listed infos u m ≡ (
                configured urls models u m
                && not (contains s.unhealthy_endpoint_hashes (get_model_endpoint_hash md5 u m))))
  unfolding endpoints_from static_endpoint contains
  endpoints_from-return s now n i [] models l e k = ([], refl, λ u m. refl)
  endpoints_from-return s now n i (url ∷ urls) [] l e k = ([], refl, λ u m. refl)
  endpoints_from-return s now n i (url ∷ urls) (model ∷ models) l e k =
      let (infos, p, q) =
        endpoints_from-return s now n (suc i) urls models l e (omega (arith, k)) in
      elim (Bool-cases
        (contains s.unhealthy_endpoint_hashes (get_model_endpoint_hash md5 url model))) [
          | inl a ↦
              (infos, rw (a, p) refl, λ u m. skipped s urls models infos url model u m a (q u m))
          | inr a ↦
              let (label, b) = label_at-return s.model_labels n i l (omega (arith, k)) in
              let (id, c) = id_at-return s.engines_id i (omega (arith, e, k)) in
              (
                static_endpoint s now url model label id ∷ infos,
                rw (a, b, c, p) refl,
                λ u m. kept s urls models infos url model u m a (q u m),
              )
        ]

  round_lem :
      (s : StaticServiceDiscovery) (types : List String) (probe : Probe) (found : List String)
      → s.model_types ≡ some types
      → probe_all md5 probe s.urls s.models types ≡ return found
      → check_model_health md5 probe s ≡ (record s { unhealthy_endpoint_hashes = found }, true)
  unfolding check_model_health get_unhealthy_endpoint_hashes
  round_lem s types probe found typed p =
      ap (after_round md5 s) (ap (probe_typed md5 probe s) typed ∙ p)

  -- A round of health checks in which no probe raises, on a configuration with model types, with an id
  -- for each of its URLs, and with a label for each or no labels. The endpoints that are listed after
  -- it are exactly the configured ones whose digest, of URL and model, no failed probe has; one probe
  -- is made for each URL, model and type, up to the end of the shortest list. And the next round comes
  -- after a pause.
  pub check_model_health_lem :
      (s : StaticServiceDiscovery) (types : List String) (now : ℕ)
      (healthy : String → String → String → Bool)
      → s.model_types ≡ some types
      → Labels s.model_labels (length s.urls)
      → length s.engines_id ≡ length s.urls
      → let (s', slept) = check_model_health md5 (λ u m t. return (healthy u m t)) s in
        (slept ≡ true)
        × (infos : List EndpointInfo) × (get_endpoint_info md5 s' now ≡ return infos)
        × ((u m : String)
            → listed infos u m ≡ (
                configured s.urls s.models u m
                && answering healthy (get_model_endpoint_hash md5 u m) s.urls s.models types))
  unfolding get_endpoint_info
  check_model_health_lem s types now healthy typed l e =
      let (found, p, q) = probe_all-return healthy s.urls s.models types in
      let (infos, a, b) =
        endpoints_from-return (record s { unhealthy_endpoint_hashes = found }) now (length s.urls) 0
          s.urls s.models l e (omega arith) in
      rw (round_lem s types (λ u m t. return (healthy u m t)) found typed p)
        (refl, infos, a, λ u m. ground (arith, b u m, q (get_model_endpoint_hash md5 u m)))
