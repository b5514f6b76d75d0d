-- ===== src/Discovery/ServiceName/Replay.antt =====
-- Each service has a state of its own: what is listed of it follows from its own events alone.
use production_stack.Base.Names.{
  String, ◌≡◌, refl, ap, ◌∙◌, inl, inr, Bool, false, not, ◌&&◌, Option, none, some, List, [], ◌∷◌,
  arith,
}
use production_stack.Base.Tests.{if◌then◌else◌, Option-cases}
use production_stack.Base.Eq.{◌==◌, string_eq}
use production_stack.Base.Lists.{is_empty}
use production_stack.Base.Dict
use production_stack.Base.Dict.{Dict, get-put, get-del, has-get}
use production_stack.Endpoint.{EndpointInfo}
use production_stack.Discovery.{added, modified, deleted, another_type, Config}
use production_stack.Discovery.ServiceName.{
  ServiceEvent, check_service_ready, get_model_names, check_engine_sleep_mode, new_endpoint,
  Engines, add_engine, delete_engine, on_engine_update, when_read, watch_event, watch_events,
}

-- The service has an address, and answers with a model.
abbrev pub serves : ServiceEvent → List Bool → Bool
serves ev subsets = check_service_ready subsets && not (is_empty (get_model_names ev))

-- The endpoint that is listed for it; where the sleep mode cannot be read, that from before.
abbrev pub made : Config → ServiceEvent → Option EndpointInfo → Option EndpointInfo
made config ev before = elim (check_engine_sleep_mode ev) [
  | none ↦ before
  | some enabled ↦ some (new_endpoint config ev enabled)
]

-- What is listed of a service that has a name, behind one of its events.
abbrev pub listed_after : Config → ServiceEvent → Option EndpointInfo → Option EndpointInfo
listed_after config ev before = elim ev.event_type [
  | deleted ↦ none
  | another_type ↦ before
  | added ↦ elim ev.subsets [
    | none ↦ before
    | some subsets ↦ if serves ev subsets then made config ev before else before
  ]
  | modified ↦ elim ev.subsets [
    | none ↦ before
    | some subsets ↦ if serves ev subsets then made config ev before else none
  ]
]

-- The run of one service: the events of the others are passed over.
unfoldable pub replay :
    Config → String → List ServiceEvent → Option EndpointInfo → Option EndpointInfo
replay config name [] before = before
replay config name (ev ∷ evs) before =
    replay config name evs
      (if ev.service_name == name then listed_after config ev before else before)

get-delete_engine :
    (d : Engines) (p q : String)
    → Dict.get (delete_engine d p) q ≡ (if p == q then none else Dict.get d q)
unfolding delete_engine
get-delete_engine d p q = ground (arith, get-del d p q, has-get d p, string_eq.beq_iff p q)

module _ (config : Config) where
  get-add_engine :
      (d : Engines) (ev : ServiceEvent) (q : String)
      → Dict.get (add_engine config d ev) q
        ≡ (if ev.service_name == q then made config ev (Dict.get d q) else Dict.get d q)
  unfolding add_engine
  get-add_engine d ev q = elim (Option-cases (check_engine_sleep_mode ev)) [
    | inl p ↦ rw (p, add_engine) (ground (arith, p))
    | inr (enabled, p) ↦
        rw (p, add_engine)
          (ground (arith, p, get-put d ev.service_name (new_endpoint config ev enabled) q))
  ]

  get-watch_event :
      (d : Engines) (ev : ServiceEvent) (q : String)
      → (q == "") ≡ false
      → Dict.get (watch_event config d ev) q
        ≡ (if ev.service_name == q then listed_after config ev (Dict.get d q) else Dict.get d q)
  unfolding watch_event when_read on_engine_update
  get-watch_event d ev q named =
      let same = string_eq.beq_iff ev.service_name q in
      let empty = string_eq.beq_iff ev.service_name "" in
      let q_empty = string_eq.beq_iff q "" in
      elim (Option-cases ev.subsets) [
        | inl p ↦ ground (arith, p, get-delete_engine d ev.service_name q, get-add_engine d ev q)
        | inr (subsets, p) ↦ ground (
          arith,
          p,
          get-delete_engine d ev.service_name q,
          get-add_engine d ev q,
          same,
          empty,
          q_empty,
        )
      ]

  -- After any sequence of service events, whatever was listed before, what is listed under the name of
  -- a service is what the events of that service alone make of it: the events of other services, and
  -- how they are mixed with its own, make no difference.
  pub get-watch_events :
      (d : Engines) (evs : List ServiceEvent) (name : String)
      → (name == "") ≡ false
      → Dict.get (watch_events config d evs) name ≡ replay config name evs (Dict.get d name)
  unfolding watch_events replay
  get-watch_events d [] name h = refl
  get-watch_events d (ev ∷ evs) name h =
      get-watch_events (watch_event config d ev) evs name h
      ∙ ap (replay config name evs) (get-watch_event d ev name h)
