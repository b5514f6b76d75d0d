-- ===== src/Routing/Qps.antt =====
-- `RoutingInterface._qps_routing` of src/vllm_router/routers/routing_logic.py.
use production_stack.Base.Names.{
  String, ◌≡◌, refl, ap, ◌∙◌, ◌⊎◌, inl, inr, Bool, true, false, Option, none, some, List, [], ◌∷◌,
  arith,
}
use production_stack.Base.Tests.{if◌then◌else◌, Bool-cases, Option-cases}
use production_stack.Base.Eq.{string_eq, contains}
use production_stack.Base.Lists.{All}
use production_stack.Base.Float.{Float}
use production_stack.Base.Dict
use production_stack.Base.Dict.{Dict}
use production_stack.Endpoint.{EndpointInfo, urls}
use production_stack.Stats.Monitor.Report.{RequestStats}

module _ (float : Float) where
  open float use {F, flt, flt_irrefl, flt_trans, flt_cotrans}

  -- q < lowest, where infinity is `none`
  abbrev pub below : F → Option F → Bool
  below q none = true
  below q (some lowest) = flt q lowest

  unfoldable pub qps_loop :
      List EndpointInfo → Dict String (RequestStats F) → Option F → Option String → Option String
  qps_loop [] request_stats lowest_qps ret = ret
  qps_loop (info ∷ rest) request_stats lowest_qps ret = elim (Dict.get request_stats info.url) [
    | none ↦ some info.url
    | some stat ↦
        qps_loop rest request_stats
          (if below stat.qps lowest_qps then some stat.qps else lowest_qps)
          (if below stat.qps lowest_qps then some info.url else ret)
  ]

  unfoldable pub qps_routing : List EndpointInfo → Dict String (RequestStats F) → Option String
  unfolding qps_loop
  qps_routing endpoints request_stats = qps_loop endpoints request_stats none none

  module _ (stats : Dict String (RequestStats F)) where
    -- The engine has figures, and its rate is not below `q`.
    abbrev pub NotBelow : F → EndpointInfo → Type 0
    NotBelow q e = (s : RequestStats F) × (Dict.get stats e.url ≡ some s) × (flt s.qps q ≡ false)

    -- Nothing is known of the engine.
    abbrev pub IsUnseen : String → List EndpointInfo → Type 0
    IsUnseen u es = (Dict.get stats u ≡ none) × (contains (urls es) u ≡ true)

    -- An engine of the list with the least rate.
    abbrev pub IsLeast : String → List EndpointInfo → Type 0
    IsLeast u es =
        (s : RequestStats F) × (Dict.get stats u ≡ some s)
        × (contains (urls es) u ≡ true)
        × All (NotBelow s.qps) es

    not_below_trans : (a b c : F) → flt a b ≡ false → flt b c ≡ false → flt a c ≡ false
    not_below_trans a b c p q = elim (Bool-cases (flt a c)) [
      | inl h ↦ elim (flt_cotrans a b c h) [ inl k ↦ cc | inr k ↦ cc ]
      | inr h ↦ h
    ]

    contains-later :
        (e : EndpointInfo) (es : List EndpointInfo) (u : String)
        → contains (urls es) u ≡ true
        → contains (urls (e ∷ es)) u ≡ true
    unfolding contains
    contains-later e es u h = ground (arith, h)

    contains-here :
        (e : EndpointInfo) (es : List EndpointInfo) → contains (urls (e ∷ es)) e.url ≡ true
    unfolding contains
    contains-here e es = ground (arith, string_eq.beq_iff e.url e.url)

    -- The result of the loop from the best engine so far, of rate `q`.
    abbrev Continues : List EndpointInfo → F → String → Option String → Type 0
    Continues es q u r =
        (u' : String) × (r ≡ some u')
        × (IsUnseen u' es
            ⊎ ((s : RequestStats F) × (Dict.get stats u' ≡ some s)
                × ((u' ≡ u) ⊎ (contains (urls es) u' ≡ true))
                × (flt q s.qps ≡ false)
                × All (NotBelow s.qps) es))

    flt_asym : (a b : F) → flt a b ≡ true → flt b a ≡ false
    flt_asym a b h = elim (Bool-cases (flt b a)) [
      | inl k ↦ cc (flt_irrefl a, flt_trans a b a h k)
      | inr k ↦ k
    ]

    contains-either :
        (e : EndpointInfo) (es : List EndpointInfo) (u : String)
        → (u ≡ e.url) ⊎ (contains (urls es) u ≡ true)
        → contains (urls (e ∷ es)) u ≡ true
    contains-either e es u (inl p) = ap (contains (urls (e ∷ es))) p ∙ contains-here e es
    contains-either e es u (inr p) = contains-later e es u p

    -- The engine `e` takes over as the best so far.
    take_new :
        (e : EndpointInfo) (es : List EndpointInfo) (s s' : RequestStats F) (u : String)
        (r : Option String)
        → Dict.get stats e.url ≡ some s'
        → flt s'.qps s.qps ≡ true
        → Continues es s'.qps e.url r
        → Continues (e ∷ es) s.qps u r
    take_new e es s s' u r p less (u', q, inl (g, c)) = (u', q, inl (g, contains-later e es u' c))
    take_new e es s s' u r p less (u', q, inr (t, g, w, nb, rest)) = (
      u',
      q,
      inr (
        t,
        g,
        inr (contains-either e es u' w),
        not_below_trans s.qps s'.qps t.qps (flt_asym s'.qps s.qps less) nb,
        ((s', p, nb), rest),
      ),
    )

    keep_old :
        (e : EndpointInfo) (es : List EndpointInfo) (s s' : RequestStats F) (u : String)
        (r : Option String)
        → Dict.get stats e.url ≡ some s'
        → flt s'.qps s.qps ≡ false
        → Continues es s.qps u r
        → Continues (e ∷ es) s.qps u r
    keep_old e es s s' u r p more (u', q, inl (g, c)) = (u', q, inl (g, contains-later e es u' c))
    keep_old e es s s' u r p more (u', q, inr (t, g, inl w, nb, rest)) =
        (u', q, inr (t, g, inl w, nb, ((s', p, not_below_trans s'.qps s.qps t.qps more nb), rest)))
    keep_old e es s s' u r p more (u', q, inr (t, g, inr w, nb, rest)) = (
      u',
      q,
      inr (
        t,
        g,
        inr (contains-later e es u' w),
        nb,
        ((s', p, not_below_trans s'.qps s.qps t.qps more nb), rest),
      ),
    )

    qps_loop-unseen :
        (e : EndpointInfo) (es : List EndpointInfo) (l : Option F) (r : Option String)
        → Dict.get stats e.url ≡ none
        → qps_loop (e ∷ es) stats l r ≡ some e.url
    unfolding qps_loop
    qps_loop-unseen e es l r p = rw (p, qps_loop)

    qps_loop-seen :
        (e : EndpointInfo) (es : List EndpointInfo) (l : Option F) (r : Option String)
        (s : RequestStats F)
        → Dict.get stats e.url ≡ some s
        → qps_loop (e ∷ es) stats l r
          ≡ qps_loop es stats
              (if below s.qps l then some s.qps else l)
              (if below s.qps l then some e.url else r)
    unfolding qps_loop
    qps_loop-seen e es l r s p = rw (p, qps_loop)

    qps_loop-Continues :
        (es : List EndpointInfo) (s : RequestStats F) (u : String)
        → Dict.get stats u ≡ some s
        → Continues es s.qps u (qps_loop es stats (some s.qps) (some u))
    unfolding qps_loop
    qps_loop-Continues [] s u h = (u, refl, inr (s, h, inl refl, flt_irrefl s.qps, tt))
    qps_loop-Continues (e ∷ es) s u h = elim (Option-cases (Dict.get stats e.url)) [
      | inl p ↦
          rw (qps_loop-unseen e es (some s.qps) (some u) p)
            (e.url, refl, inl (p, contains-here e es))
      | inr (s', p) ↦
          rw (qps_loop-seen e es (some s.qps) (some u) s' p) (elim (Bool-cases (flt s'.qps s.qps)) [
            | inl less ↦ rw less (
                take_new e es s s' u (qps_loop es stats (some s'.qps) (some e.url)) p less
                  (qps_loop-Continues es s' e.url p))
            | inr more ↦ rw more (
                keep_old e es s s' u (qps_loop es stats (some s.qps) (some u)) p more
                  (qps_loop-Continues es s u h))
          ])
    ]

    conclude :
        (e : EndpointInfo) (es : List EndpointInfo) (s : RequestStats F) (r : Option String)
        → Dict.get stats e.url ≡ some s
        → Continues es s.qps e.url r
        → (u : String) × (r ≡ some u) × (IsUnseen u (e ∷ es) ⊎ IsLeast u (e ∷ es))
    conclude e es s r p (u, q, inl (g, c)) = (u, q, inl (g, contains-later e es u c))
    conclude e es s r p (u, q, inr (t, g, w, nb, rest)) =
        (u, q, inr (t, g, contains-either e es u w, ((s, p, nb), rest)))

    -- On a non-empty list the choice is one of its engines: one without figures, or, when every
    -- engine has figures, one whose rate no other engine of the list is below.
    pub qps_routing-IsLeast :
        (e : EndpointInfo) (es : List EndpointInfo)
        → (u : String) × (qps_routing (e ∷ es) stats ≡ some u)
          × (IsUnseen u (e ∷ es) ⊎ IsLeast u (e ∷ es))
    unfolding qps_routing
    qps_routing-IsLeast e es = elim (Option-cases (Dict.get stats e.url)) [
      | inl p ↦ rw (qps_loop-unseen e es none none p) (e.url, refl, inl (p, contains-here e es))
      | inr (s, p) ↦ rw (qps_loop-seen e es none none s p) (
          conclude e es s (qps_loop es stats (some s.qps) (some e.url)) p
            (qps_loop-Continues es s e.url p))
    ]
