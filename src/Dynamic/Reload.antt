-- ===== src/Dynamic/Reload.antt =====
-- A reload applies the whole file, or keeps the configuration that is current.
use production_stack.Base.Names.{
  String, ◌≡◌, refl, ◌⊎◌, inl, inr, Bool, true, false, Option, none, some, ◌∙◌, arith,
}
use production_stack.Base.Tests.{Bool-cases}
use production_stack.Base.Json.{Json, Fields, lookup, str, truthy, int, null, bool, float, arr, obj}
use production_stack.Base.Outcome.{Outcome, return, raise, ◌>>=◌, Error, value_error}
use production_stack.Discovery.Service
use production_stack.Discovery.Service.{
  Wanted, ServiceDiscovery, Global, create_service_discovery, exchange, exchanged,
}
use production_stack.Routing.Factory.{
  RouterClass, disaggregated_prefill_orchestrated_router, same_class, router_classes, class_of,
  constructor_arguments, construct, Router, Registry,
}
use production_stack.Routing.Factory.Cleanup.{closes}
use production_stack.Routing.Factory.Single.{
  Sole, Emptied, Constructed, Made, Reconfigured, reconfigure_routing_logic-Made,
}
use production_stack.Dynamic.Described.{Asked, from_file, constructor_arguments-from_file}
use production_stack.Dynamic.Asked.{wanted_of-Asked}
use production_stack.Base.Tests.{if◌then◌else◌}
use production_stack.Base.Int.{pos}
use production_stack.Dynamic.{
  Config, value_of, from_config_dict, wanted_of, routing_arguments, logic_of, App, Watcher,
  Environment, with_service, apply_wanted, with_routing, imported, set_callbacks,
  reconfigure_service_discovery, reconfigure_routing_logic, reconfigure_callbacks, after,
  reconfigure_all, applied, consider, watch,
}

module _ (env : Environment) where
  -- The service discovery was made as the configuration says.
  abbrev pub Discovered : Config → App → Type 0
  Discovered config app =
      (wanted : Wanted) × Asked env.validate_url config wanted
      × (s : ServiceDiscovery) × (create_service_discovery env.around wanted ≡ return s)
      × (app.service.current ≡ some s)

  -- The router of the application is the only one that is registered, and was made as it says.
  abbrev pub RoutedBy : Config → App → Type 0
  RoutedBy config app =
      (c : RouterClass) × (class_of (logic_of (value_of config "routing_logic")) ≡ some c)
      × (r : Router) × (app.router ≡ some r)
      × (r.class ≡ c)
      × (r.arguments ≡ from_file config c)
      × (r.reroute_attempts ≡ (
          if same_class c disaggregated_prefill_orchestrated_router
          then none
          else some (int (pos 0))))
      × ((d : RouterClass) → app.registry d ≡ (if same_class c d then some r else none))

  abbrev pub CalledBack : Json → App → Type 0
  CalledBack v app =
      ((truthy v ≡ false) × (app.callbacks ≡ none))
      ⊎ ((t : String) × (v ≡ str t) × (app.callbacks ≡ some t))

  abbrev pub Reflects : Config → App → Type 0
  Reflects config app =
      Discovered config app × RoutedBy config app × CalledBack (value_of config "callbacks") app

  -- A step that does not raise leaves the parts in order.
  abbrev pub Leaves : (App → Type 0) → Outcome (Unit {0}) × App → Type 0
  Leaves P (return u, app) = P app
  Leaves P (raise e, app) = Unit

  Leaves-after :
      (P Q : App → Type 0) (first : Outcome (Unit {0}) × App)
      (next : App → Outcome (Unit {0}) × App)
      → Leaves P first
      → ((app : App) → P app → Leaves Q (next app))
      → Leaves Q (after env first next)
  Leaves-after P Q (return u, app) next h k = k app h
  Leaves-after P Q (raise e, app) next h k = tt

  discovered :
      (app : App) (config : Config)
      → Leaves (Discovered config) (reconfigure_service_discovery env app config)
  unfolding reconfigure_service_discovery Service.reconfigure_service_discovery
  discovered app config = wanted_cases (wanted_of env.validate_url config) refl
    where
      created :
          (wanted : Wanted) (old : ServiceDiscovery) (s : Outcome ServiceDiscovery)
          → wanted_of env.validate_url config ≡ return wanted
          → create_service_discovery env.around wanted ≡ s
          → Leaves (Discovered config) (with_service env app (exchanged app.service old s))
      created wanted old (raise e) p q = tt
      created wanted old (return s) p q =
          (wanted, wanted_of-Asked env.validate_url config wanted p, s, q, refl)

      global_cases :
          (wanted : Wanted) (old : Option ServiceDiscovery)
          → wanted_of env.validate_url config ≡ return wanted
          → Leaves
              (Discovered config)
              (with_service env app (exchange env.around app.service wanted old))
      global_cases wanted none p = unfold exchange in tt
      global_cases wanted (some old) p =
          unfold exchange in created wanted old (create_service_discovery env.around wanted) p refl

      wanted_cases :
          (wanted : Outcome Wanted)
          → wanted_of env.validate_url config ≡ wanted
          → Leaves (Discovered config) (apply_wanted env app wanted)
      wanted_cases (raise e) p = tt
      wanted_cases (return wanted) p = global_cases wanted app.service.current p

  module _ (config : Config) (app : App) (d : Discovered config app) where
    abbrev Both : App → Type 0
    Both a = Discovered config a × RoutedBy config a

    emptied :
        (e : Error) (result : Outcome Router × Registry)
        → Emptied e result
        → Leaves Both (with_routing env app result)
    emptied e (return r, registry) h = absurd (ground (arith, h.0))
    emptied e (raise x, registry) h = tt

    sole :
        (c : RouterClass) (r : Router) (registry : Registry)
        → Sole c (routing_arguments config) (return r, registry)
        → (s : Router) × (some r ≡ some s)
          × (s.class ≡ c)
          × (s.arguments ≡ from_file config c)
          × (s.reroute_attempts ≡ (
              if same_class c disaggregated_prefill_orchestrated_router
              then none
              else some (int (pos 0))))
          × ((k : RouterClass) → registry k ≡ (if same_class c k then some s else none))
    unfolding routing_arguments lookup
    sole c r registry (s, same, class, arguments, attempts, only, got) = (
      s,
      ground (arith, same),
      class,
      arguments ∙ constructor_arguments-from_file config c,
      attempts,
      only,
    )

    constructed :
        (c : RouterClass) (made : Outcome (Unit {0})) (result : Outcome Router × Registry)
        → class_of (logic_of (value_of config "routing_logic")) ≡ some c
        → Constructed c (routing_arguments config) made result
        → Leaves Both (with_routing env app result)
    constructed c (return u) (return r, registry) p h =
        let (s, same, class, arguments, attempts, only) = sole c r registry h in
        (d, (c, p, s, same, class, arguments, attempts, only))
    constructed c (return u) (raise x, registry) p h = tt
    constructed c (raise e) result p h = emptied e result h

    classed :
        (c : Option RouterClass) (result : Outcome Router × Registry)
        → class_of (logic_of (value_of config "routing_logic")) ≡ c
        → Made env.start_controller (routing_arguments config) c result
        → Leaves Both (with_routing env app result)
    classed none result p h = emptied value_error result h
    classed (some c) result p h =
        constructed c
          (construct env.start_controller c (constructor_arguments c (routing_arguments config)))
          result p h

    by_closing :
        (closing : Bool) (result : Outcome Router × Registry)
        → Reconfigured env.start_controller env.close app.registry
            (routing_arguments config)
            (class_of (logic_of (value_of config "routing_logic")))
            closing
            result
        → Leaves Both (with_routing env app result)
    by_closing true result h =
        classed (class_of (logic_of (value_of config "routing_logic"))) result refl h
    by_closing false (return r, registry) h = absurd (ground (arith, h.1))
    by_closing false (raise e, registry) h = tt

    routed : Leaves Both (reconfigure_routing_logic env app config)
    unfolding reconfigure_routing_logic
    routed = by_closing (closes env.close app.registry router_classes) _ (
        reconfigure_routing_logic-Made env.start_controller env.close app.registry
          (logic_of (value_of config "routing_logic")) (routing_arguments config))

  module _ (config : Config) (app : App) (d : Discovered config app) (r : RoutedBy config app) where
    imported_lem :
        (t : String) (u : Outcome (Unit {0}))
        → value_of config "callbacks" ≡ str t
        → Leaves (Reflects config) (imported env app t u)
    imported_lem t (return u) p = (d, r, inr (t, p, refl))
    imported_lem t (raise e) p = tt

    set_lem :
        (v : Json)
        → value_of config "callbacks" ≡ v
        → Leaves (Reflects config) (set_callbacks env app v)
    set_lem (str t) p = imported_lem t (env.import_callbacks t) p
    set_lem null p = tt
    set_lem (bool b) p = tt
    set_lem (int z) p = tt
    set_lem (float z e) p = tt
    set_lem (arr l) p = tt
    set_lem (obj l) p = tt

    called_back : Leaves (Reflects config) (reconfigure_callbacks env app config)
    unfolding reconfigure_callbacks
    called_back = elim (Bool-cases (truthy (value_of config "callbacks"))) [
      | inl p ↦ rw p (set_lem (value_of config "callbacks") refl)
      | inr p ↦ rw p ((d, r, inl (p, refl)))
    ]

  reconfigure_all-Reflects :
      (app : App) (config : Config) → Leaves (Reflects config) (reconfigure_all env app config)
  unfolding reconfigure_all
  reconfigure_all-Reflects app config =
      Leaves-after (Discovered config) (Reflects config)
        (reconfigure_service_discovery env app config) _ (discovered app config)
        λ a d.
          Leaves-after (λ b. Discovered config b × RoutedBy config b) (Reflects config)
            (reconfigure_routing_logic env a config) _ (routed config a d)
            λ b h. called_back config b h.0 h.1

  -- What a tick leaves, by what the file holds and whether that is the current configuration.
  abbrev pub Considered : Watcher → Config → Bool → Watcher → Type 0
  Considered w config true w' = w' ≡ w
  Considered w config false w' =
      ((w'.current_config ≡ config) × Reflects config w'.app)
      ⊎ ((w'.current_config ≡ w.current_config)
          × (e : Error) × ((reconfigure_all env w.app config).0 ≡ raise e))

  abbrev pub Ticked : Watcher → Outcome Config → Watcher → Type 0
  Ticked w (raise e) w' = w' ≡ w
  Ticked w (return config) w' = Considered w config (env.same config w.current_config) w'

  applied_lem :
      (w : Watcher) (config : Config) (result : Outcome (Unit {0}) × App)
      → Leaves (Reflects config) result
      → (((applied env w config result).current_config ≡ config)
          × Reflects config (applied env w config result).app)
        ⊎ (((applied env w config result).current_config ≡ w.current_config)
            × (e : Error) × (result.0 ≡ raise e))
  applied_lem w config (return u, app) h = inl (refl, h)
  applied_lem w config (raise e, app) h = inr (refl, e, refl)

  consider-Ticked :
      (w : Watcher) (config : Outcome Config) → Ticked w config (consider env w config)
  unfolding consider
  consider-Ticked w (raise e) = refl
  consider-Ticked w (return config) = elim (Bool-cases (env.same config w.current_config)) [
    | inl p ↦ rw p refl
    | inr p ↦ rw p (
        applied_lem w config (reconfigure_all env w.app config)
          (reconfigure_all-Reflects w.app config))
  ]

  -- One tick of the watcher. A file of which no configuration can be made, or which says what is
  -- current, changes nothing at all. With any other file, either it becomes the current configuration,
  -- with the service discovery that it asks for, a router of the class that it names as the only one
  -- registered, and the callbacks that it names. Of its settings the router gets the session key and
  -- the four settings of priorities, each as it stands in the file; everything else has its default,
  -- the reroutes being set to 0. Or a part of it raised, and the current configuration stays, to be
  -- compared with the file again.
  pub watch-Ticked :
      (w : Watcher) (file : Outcome Fields)
      → Ticked w (file >>= from_config_dict env.flags) (watch env w file)
  unfolding watch
  watch-Ticked w file = consider-Ticked w (file >>= from_config_dict env.flags)
