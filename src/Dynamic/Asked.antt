-- ===== src/Dynamic/Asked.antt =====
-- The service discovery that a reload makes is the one that the configuration file asks for.
use production_stack.Base.Names.{
  String, ◌≡◌, refl, ap, ◌∙◌, subst, inl, inr, Bool, Option, none, some, List, arith,
}
use production_stack.Base.Tests.{Bool-cases}
use production_stack.Base.Eq.{◌==◌, string_eq}
use production_stack.Base.Dict.{Dict}
use production_stack.Base.Json.{Json, null, bool, int, float, str, arr, obj, truthy}
use production_stack.Base.Outcome.{return, ◌>>=◌, bind-return}
use production_stack.Parsers.{parse_comma_separated_args, parse_static_urls, parse_static_aliases}
use production_stack.Discovery.Service.{StaticArguments, KubernetesArguments, Wanted, static, k8s}
use production_stack.Dynamic.{
  Config, value_of, text_of, comma_list, aliases_of, static_arguments, k8s_arguments, wanted_by,
  wanted_of,
}
use production_stack.Dynamic.Described.{
  Listed, absent, texts, Aliased, unset, pairs, Backends, valid_urls, StaticFile, KubernetesFile,
  Asked, asked_static, asked_k8s,
}

return_inj {ℓ} : {A : Type ℓ} {a b : A} → return a ≡ return b → a ≡ b
return_inj h = ground (arith, h)

comma_list-Listed : (v : Json) (o : Option (List String)) → comma_list v ≡ return o → Listed v o
unfolding parse_comma_separated_args
comma_list-Listed null o h = subst (Listed null) (return_inj h) absent
comma_list-Listed (str t) o h = subst (Listed (str t)) (return_inj h) (texts t)
comma_list-Listed (bool b) o h = absurd (ground (arith, h))
comma_list-Listed (int z) o h = absurd (ground (arith, h))
comma_list-Listed (float z e) o h = absurd (ground (arith, h))
comma_list-Listed (arr l) o h = absurd (ground (arith, h))
comma_list-Listed (obj l) o h = absurd (ground (arith, h))

text_of-Backends :
    (validate_url : String → Bool) (v : Json) (t : String)
    → text_of v ≡ return t
    → Backends validate_url v (parse_static_urls validate_url t)
text_of-Backends f (str s) t h =
    subst (λ x. Backends f (str s) (parse_static_urls f x)) (return_inj h) (valid_urls s)
text_of-Backends f null t h = absurd (ground (arith, h))
text_of-Backends f (bool b) t h = absurd (ground (arith, h))
text_of-Backends f (int z) t h = absurd (ground (arith, h))
text_of-Backends f (float z e) t h = absurd (ground (arith, h))
text_of-Backends f (arr l) t h = absurd (ground (arith, h))
text_of-Backends f (obj l) t h = absurd (ground (arith, h))

aliases_of-Aliased :
    (v : Json) (o : Option (Dict String String)) → aliases_of v ≡ return o → Aliased v o
aliases_of-Aliased v o h = elim (Bool-cases (truthy v)) [
  | inr p ↦ subst (Aliased v) (return_inj (ground (arith, p, h))) (unset v p)
  | inl p ↦
      let all : (text_of v >>= parse_static_aliases >>= λ d. return (some d)) ≡ return o =
        ground (arith, p, h) in
      let (d, q, r) =
        bind-return (text_of v >>= parse_static_aliases) (λ d. return (some d)) o all in
      let (t, k, l) = bind-return (text_of v) parse_static_aliases d q in
      read v t d o k l (return_inj r)
]
  where
    read :
        (w : Json) (t : String) (d : Dict String String) (x : Option (Dict String String))
        → text_of w ≡ return t
        → parse_static_aliases t ≡ return d
        → some d ≡ x
        → Aliased w x
    read (str u) t d x k l e =
        subst (Aliased (str u)) e (pairs u d (ap parse_static_aliases (return_inj k) ∙ l))
    read null t d x k l e = absurd (ground (arith, k))
    read (bool b) t d x k l e = absurd (ground (arith, k))
    read (int z) t d x k l e = absurd (ground (arith, k))
    read (float z f) t d x k l e = absurd (ground (arith, k))
    read (arr y) t d x k l e = absurd (ground (arith, k))
    read (obj y) t d x k l e = absurd (ground (arith, k))

module _ (validate_url : String → Bool) (config : Config) where
  static_arguments-StaticFile :
      (a : StaticArguments)
      → value_of config "service_discovery" ≡ str "static"
      → static_arguments validate_url config ≡ return a
      → StaticFile validate_url config a
  unfolding static_arguments
  static_arguments-StaticFile a kind h =
      let (backends, h1, r1) = bind-return (text_of (value_of config "static_backends")) _ a h in
      let (models, h2, r2) = bind-return (comma_list (value_of config "static_models")) _ a r1 in
      let (aliases, h3, r3) = bind-return (aliases_of (value_of config "static_aliases")) _ a r2 in
      let (labels, h4, r4) =
        bind-return (comma_list (value_of config "static_model_labels")) _ a r3 in
      let (types, h5, r5) =
        bind-return (comma_list (value_of config "static_model_types")) _ a r4 in
      let (prefill, h6, r6) =
        bind-return (comma_list (value_of config "prefill_model_labels")) _ a r5 in
      let (decode, h7, r7) =
        bind-return (comma_list (value_of config "decode_model_labels")) _ a r6 in
      subst (StaticFile validate_url config) (return_inj r7) (record {
        kind = kind;
        backends = text_of-Backends validate_url (value_of config "static_backends") backends h1;
        models = comma_list-Listed (value_of config "static_models") models h2;
        aliases = aliases_of-Aliased (value_of config "static_aliases") aliases h3;
        labels = comma_list-Listed (value_of config "static_model_labels") labels h4;
        types = comma_list-Listed (value_of config "static_model_types") types h5;
        prefill = comma_list-Listed (value_of config "prefill_model_labels") prefill h6;
        decode = comma_list-Listed (value_of config "decode_model_labels") decode h7;
      })

  k8s_arguments-KubernetesFile :
      (a : KubernetesArguments)
      → value_of config "service_discovery" ≡ str "k8s"
      → k8s_arguments config ≡ return a
      → KubernetesFile config a
  unfolding k8s_arguments
  k8s_arguments-KubernetesFile a kind h =
      let (prefill, h1, r1) =
        bind-return (comma_list (value_of config "prefill_model_labels")) _ a h in
      let (decode, h2, r2) =
        bind-return (comma_list (value_of config "decode_model_labels")) _ a r1 in
      subst (KubernetesFile config) (return_inj r2) (record {
        kind = kind;
        namespace = refl;
        port = refl;
        label_selector = refl;
        prefill = comma_list-Listed (value_of config "prefill_model_labels") prefill h1;
        decode = comma_list-Listed (value_of config "decode_model_labels") decode h2;
      })

  wanted_by-Asked :
      (v : Json) (wanted : Wanted)
      → value_of config "service_discovery" ≡ v
      → wanted_by validate_url config v ≡ return wanted
      → Asked validate_url config wanted
  unfolding wanted_by
  wanted_by-Asked (str t) wanted kind h = elim (Bool-cases (t == "static")) [
    | inl p ↦
        let made : (static_arguments validate_url config >>= λ a. return (static a))
            ≡ return wanted =
          ground (arith, p, h) in
        let (a, q, r) = bind-return (static_arguments validate_url config) _ wanted made in
        subst (Asked validate_url config) (return_inj r) (
          asked_static a
            (static_arguments-StaticFile a (kind ∙ ap str ((string_eq.beq_iff t "static").0 p)) q))
    | inr p ↦ elim (Bool-cases (t == "k8s")) [
      | inl p' ↦
          let made : (k8s_arguments config >>= λ a. return (k8s none a)) ≡ return wanted =
            ground (arith, p, p', h) in
          let (a, q, r) = bind-return (k8s_arguments config) _ wanted made in
          subst (Asked validate_url config) (return_inj r) (
            asked_k8s a
              (k8s_arguments-KubernetesFile a (kind ∙ ap str ((string_eq.beq_iff t "k8s").0 p')) q))
      | inr p' ↦ absurd (ground (arith, p, p', h))
    ]
  ]
  wanted_by-Asked null wanted kind h = absurd (ground (arith, h))
  wanted_by-Asked (bool b) wanted kind h = absurd (ground (arith, h))
  wanted_by-Asked (int z) wanted kind h = absurd (ground (arith, h))
  wanted_by-Asked (float z e) wanted kind h = absurd (ground (arith, h))
  wanted_by-Asked (arr l) wanted kind h = absurd (ground (arith, h))
  wanted_by-Asked (obj l) wanted kind h = absurd (ground (arith, h))

  -- The service discovery that a reload wants is the one that the file asks for.
  pub wanted_of-Asked :
      (wanted : Wanted)
      → wanted_of validate_url config ≡ return wanted
      → Asked validate_url config wanted
  unfolding wanted_of
  wanted_of-Asked wanted h = wanted_by-Asked (value_of config "service_discovery") wanted refl h
