-- ===== src/Discovery/Listing.antt =====
-- Which engines the discovery lists, and which models it remembers.
use production_stack.Base.Names.{
  String, ◌≡◌, sym, ap, ◌∙◌, inl, inr, ◌⊎◌, subst, Bool, true, false, not, ◌&&◌, ◌||◌, Option, none,
  some, List, [], ◌∷◌, ◌++◌, arith,
}
use production_stack.Base.Tests.{if◌then◌else◌, Bool-cases, Option-cases}
use production_stack.Base.Eq.{◌==◌, string_eq, contains}
use production_stack.Base.Lists.{is_empty, contains-append}
use production_stack.Base.Dict
use production_stack.Base.Dict.{Dict, has-put, has-del, get-put, get-del}
use production_stack.Endpoint.{EndpointInfo}
use production_stack.Discovery.{
  init, added, modified, deleted, another_type, PodEvent, Config, Discovery, get_model_names,
  add_all, answered, api_exception, other_exception, sleep_status, list_engine, new_endpoint,
  add_engine, delete_engine, delete_listed, on_engine_update, is_ready, watch_event, watch_events,
  has_ever_seen_model,
}

-- The pod can serve: it is ready and not terminating, it has an address, and it answers with a model.
abbrev pub usable : PodEvent → Bool
usable ev =
    is_ready ev
    && (elim ev.pod_ip [ none ↦ false | some ip ↦ true ] && not (is_empty (get_model_names ev)))

-- The API server gives the pod's containers, or an ApiException.
abbrev pub readable : PodEvent → Bool
readable ev = elim ev.containers [
  | answered cs ↦ true
  | api_exception ↦ true
  | other_exception ↦ false
]

-- Whether the pod of an event is listed behind it, from whether it was listed before.
abbrev pub listed_after : PodEvent → Bool → Bool
listed_after ev before = elim ev.event_type [
  | added ↦ (usable ev && readable ev) || before
  | modified ↦ usable ev && (readable ev || before)
  | deleted ↦ false
  | another_type ↦ before
]

readable-sleep_status :
    (ev : PodEvent) → readable ev ≡ elim (sleep_status ev) [ none ↦ false | some sleep ↦ true ]
unfolding sleep_status
readable-sleep_status ev = ground arith

module _ (config : Config) (d : Discovery) where
  has-delete_listed :
      (p q : String)
      → Dict.has (delete_listed d p).available_engines q
        ≡ (Dict.has d.available_engines q && not (p == q))
  unfolding delete_listed delete_engine
  has-delete_listed p q = ground (arith, has-del d.available_engines p q, string_eq.beq_iff p q)

  has-add_engine :
      (ev : PodEvent) (ip : String) (names : List String) (label : Option String) (q : String)
      → Dict.has (add_engine config d ev ip names label).available_engines q
        ≡ ((readable ev && ev.pod_name == q) || Dict.has d.available_engines q)
  unfolding add_engine list_engine
  has-add_engine ev ip names label q = elim (Option-cases (sleep_status ev)) [
    | inl p ↦ rw (p, add_engine) (ground (arith, readable-sleep_status ev, p))
    | inr (sleep, p) ↦
        rw (p, add_engine)
          (ground (
            arith,
            readable-sleep_status ev,
            p,
            has-put d.available_engines ev.pod_name (new_endpoint config ev ip names label sleep) q,
          ))
  ]

  -- An event decides on its own pod alone. A modified pod that cannot serve, because it terminates,
  -- is not ready, has lost its address or its models, is gone, and so is a deleted pod. An added or
  -- modified pod that can serve is listed, unless its containers cannot be read for another reason
  -- than an ApiException: then it stays as it was, as an added pod that cannot serve does, and any
  -- pod on any other event.
  pub has-watch_event :
      (ev : PodEvent) (q : String)
      → Dict.has (watch_event config d ev).available_engines q ≡ (
          if ev.pod_name == q
          then listed_after ev (Dict.has d.available_engines q)
          else Dict.has d.available_engines q)
  unfolding watch_event on_engine_update
  has-watch_event ev q = elim (Option-cases ev.pod_ip) [
    | inl p ↦ ground (arith, p, has-delete_listed ev.pod_name q)
    | inr (ip, p) ↦ ground (
      arith,
      p,
      has-delete_listed ev.pod_name q,
      has-add_engine ev ip (get_model_names ev) (Dict.get ev.labels "model") q,
    )
  ]

contains-add_all :
    (known names : List String) (m : String)
    → contains (add_all known names) m ≡ (contains known m || contains names m)
unfolding add_all contains
contains-add_all known [] m = ground arith
contains-add_all known (n ∷ names) m = elim (Bool-cases (contains known n)) [
  | inl p ↦ rw p (ground (arith, p, contains-add_all known names m, string_eq.beq_iff n m))
  | inr p ↦ rw p (
      ground (
        arith,
        contains-add_all (known ++ n ∷ []) names m,
        contains-append known (n ∷ []) m,
        string_eq.beq_iff n m,
      ))
]

-- Each listed engine stands under the name of its pod, serves a model, and every model that it
-- serves is remembered.
pub record Inv (d : Discovery) : Type 0 where
  pub named :
      (name : String) (e : EndpointInfo)
      → Dict.get d.available_engines name ≡ some e
      → e.pod_name ≡ some name
  pub serving :
      (name : String) (e : EndpointInfo)
      → Dict.get d.available_engines name ≡ some e
      → is_empty e.model_names ≡ false
  pub remembered :
      (name : String) (e : EndpointInfo) (m : String)
      → Dict.get d.available_engines name ≡ some e
      → contains e.model_names m ≡ true
      → contains d.known_models m ≡ true

module _ (config : Config) where
  delete_listed-Inv : (d : Discovery) (p : String) → Inv d → Inv (delete_listed d p)
  unfolding delete_listed delete_engine
  delete_listed-Inv d p v = record {
    named = λ name e h. ground (arith, h, v.named name e, get-del d.available_engines p name);
    serving = λ name e h. ground (arith, h, v.serving name e, get-del d.available_engines p name);
    remembered = λ name e m h k.
        ground (arith, h, k, v.remembered name e m, get-del d.available_engines p name);
  }

  delete_listed-known :
      (d : Discovery) (p : String) → (delete_listed d p).known_models ≡ d.known_models
  unfolding delete_listed delete_engine
  delete_listed-known d p = ground arith

  -- What is listed behind an addition is the new endpoint or was listed before.
  get-list_engine :
      (d : Discovery) (ev : PodEvent) (ip : String) (names : List String) (label : Option String)
      (sleep : Bool) (name : String) (e : EndpointInfo)
      → Dict.get (list_engine config d ev ip names label sleep).available_engines name ≡ some e
      → ((ev.pod_name ≡ name) × (new_endpoint config ev ip names label sleep ≡ e))
        ⊎ (Dict.get d.available_engines name ≡ some e)
  unfolding list_engine
  get-list_engine d ev ip names label sleep name e h = ground (
    arith,
    h,
    string_eq.beq_iff ev.pod_name name,
    get-put d.available_engines ev.pod_name (new_endpoint config ev ip names label sleep) name,
  )

  list_engine-Inv :
      (d : Discovery) (ev : PodEvent) (ip : String) (names : List String) (label : Option String)
      (sleep : Bool)
      → is_empty names ≡ false
      → Inv d
      → Inv (list_engine config d ev ip names label sleep)
  unfolding list_engine
  list_engine-Inv d ev ip names label sleep n v = record {
    named = λ name e h. elim (get-list_engine d ev ip names label sleep name e h) [
      | inl (p, q) ↦ ap (λ x. x.pod_name) (sym q) ∙ ap some p
      | inr p ↦ v.named name e p
    ];
    serving = λ name e h. elim (get-list_engine d ev ip names label sleep name e h) [
      | inl (p, q) ↦ ap (λ x. is_empty x.model_names) (sym q) ∙ n
      | inr p ↦ v.serving name e p
    ];
    remembered = λ name e m h k. elim (get-list_engine d ev ip names label sleep name e h) [
      | inl (p, q) ↦
          ground (
            arith,
            k,
            ap (λ x. contains x.model_names m) q,
            contains-add_all d.known_models names m,
          )
      | inr p ↦ ground (arith, v.remembered name e m p k, contains-add_all d.known_models names m)
    ];
  }

  -- An addition keeps the three facts and the models that were seen.
  add_engine-Inv :
      (d : Discovery) (ev : PodEvent) (ip : String) (names : List String) (label : Option String)
      → is_empty names ≡ false
      → Inv d
      → Inv (add_engine config d ev ip names label)
        × ((m : String)
            → contains d.known_models m ≡ true
            → contains (add_engine config d ev ip names label).known_models m ≡ true)
  unfolding add_engine
  add_engine-Inv d ev ip names label n v = elim (Option-cases (sleep_status ev)) [
    | inl p ↦ rw (p, add_engine) (v, λ m h. h)
    | inr (sleep, p) ↦
        rw (p, add_engine)
          (
            list_engine-Inv d ev ip names label sleep n v,
            λ m h. unfold list_engine in ground (arith, h, contains-add_all d.known_models names m),
          )
  ]

  -- An event changes nothing, removes its pod, or lists it with at least one model.
  watch_event-cases :
      (d : Discovery) (ev : PodEvent)
      → (watch_event config d ev ≡ d)
        ⊎ ((watch_event config d ev ≡ delete_listed d ev.pod_name)
            ⊎ ((ip : String) × (is_empty (get_model_names ev) ≡ false)
                × (watch_event config d ev
                    ≡ add_engine config d ev ip (get_model_names ev) (Dict.get ev.labels "model"))))
  unfolding watch_event on_engine_update
  watch_event-cases d ev = elim (Option-cases ev.pod_ip) [
    | inl p ↦ ground (arith, p)
    | inr (ip, p) ↦
        let split : (watch_event config d ev ≡ d)
            ⊎ ((watch_event config d ev ≡ delete_listed d ev.pod_name)
                ⊎ ((is_empty (get_model_names ev) ≡ false)
                    × (watch_event config d ev
                        ≡ add_engine config d ev ip (get_model_names ev)
                            (Dict.get ev.labels "model")))) =
          ground (arith, p) in
        elim split [
          | inl q ↦ inl q
          | inr (inl q) ↦ inr (inl q)
          | inr (inr q) ↦ inr (inr (ip, q.0, q.1))
        ]
  ]

  watch_event-Inv :
      (d : Discovery) (ev : PodEvent)
      → Inv d
      → Inv (watch_event config d ev)
        × ((m : String)
            → contains d.known_models m ≡ true
            → contains (watch_event config d ev).known_models m ≡ true)
  watch_event-Inv d ev v = elim (watch_event-cases d ev) [
    | inl p ↦ (subst Inv (sym p) v, λ m h. ap (λ x. contains x.known_models m) p ∙ h)
    | inr (inl p) ↦ (
      subst Inv (sym p) (delete_listed-Inv d ev.pod_name v),
      λ m h.
          ap (λ x. contains x.known_models m) p
          ∙ ap (λ l. contains l m) (delete_listed-known d ev.pod_name)
          ∙ h,
    )
    | inr (inr (ip, n, p)) ↦
        let (inv, seen) =
          add_engine-Inv d ev ip (get_model_names ev) (Dict.get ev.labels "model") n v in
        (subst Inv (sym p) inv, λ m h. ap (λ x. contains x.known_models m) p ∙ seen m h)
  ]

  -- Three facts, where they hold at first, hold through any sequence of pod events: every listed
  -- engine stands under the name of its pod, it serves a model, and every model that a listed
  -- engine serves counts as seen. And a model that was once seen stays so, although all its
  -- engines may have gone.
  pub watch_events-Inv :
      (d : Discovery) (evs : List PodEvent)
      → Inv d
      → Inv (watch_events config d evs)
        × ((m : String)
            → has_ever_seen_model d m ≡ true
            → has_ever_seen_model (watch_events config d evs) m ≡ true)
  unfolding watch_events has_ever_seen_model
  watch_events-Inv d [] v = (v, λ m h. h)
  watch_events-Inv d (ev ∷ evs) v =
      let (v', k) = watch_event-Inv d ev v in
      let (v'', k') = watch_events-Inv (watch_event config d ev) evs v' in
      (v'', λ m h. k' m (k m h))

pub init-Inv : Inv init
unfolding init Dict.get
init-Inv = record {
  named = λ name e h. ground (arith, h);
  serving = λ name e h. ground (arith, h);
  remembered = λ name e m h k. ground (arith, h);
}
