-- ===== src/Request/Sleep/Target.antt =====
-- A request to sleep or to wake up reaches the engine that it names, and no other.
use production_stack.Base.Names.{
  ℕ, ◌<◌, String, ◌≡◌, refl, sym, ap, ◌∙◌, ◌⊎◌, inl, inr, true, false, ◌&&◌, Option, none, some,
  List, [], ◌∷◌, arith,
}
use production_stack.Base.Tests.{leb, if◌then◌else◌, Bool-cases}
use production_stack.Base.Eq.{◌==◌, string_eq}
use production_stack.Base.Lists.{filter, any}
use production_stack.Base.Dict
use production_stack.Base.Dict.{Dict}
use production_stack.Base.Json.{Json}
use production_stack.Base.Outcome.{Outcome, return, raise, Error}
use production_stack.Endpoint.{EndpointInfo}
use production_stack.Request.Sleep.{
  Answer, answered, failed, Call, Labelling, Run, Body, upstream_params, labelling_for, after_post,
  after_get, post, ask, ask_first, ask_target, route_sleep_wakeup_request,
}

get-upstream_params :
    (q : Dict String String) (k : String)
    → Dict.get (upstream_params q) k ≡ (if k == "id" then none else Dict.get q k)
unfolding upstream_params Dict.get
get-upstream_params [] k = ground arith
get-upstream_params ((j, v) ∷ q) k = elim (Bool-cases (j == "id")) [
  | inl p ↦ ground (
    arith,
    p,
    get-upstream_params q k,
    string_eq.beq_iff j k,
    string_eq.beq_iff j "id",
    string_eq.beq_iff k "id",
  )
  | inr p ↦ ground (
    arith,
    p,
    get-upstream_params q k,
    string_eq.beq_iff j k,
    string_eq.beq_iff j "id",
    string_eq.beq_iff k "id",
  )
]

-- The first of the endpoints with the id.
first_with-id :
    (id : String) (es : List EndpointInfo) (e : EndpointInfo) (rest : List EndpointInfo)
    → filter (λ x. x.id == id) es ≡ e ∷ rest
    → (e.id ≡ id) × (any (λ x. x.url == e.url && x.id == id) es ≡ true)
first_with-id id [] e rest h = absurd (ground (arith, h))
first_with-id id (x ∷ es) e rest h = elim (Bool-cases (x.id == id)) [
  | inl p ↦
      let same : x ≡ e = ground (arith, h, p) in
      (
        ap (λ (a : EndpointInfo). a.id) (sym same) ∙ (string_eq.beq_iff x.id id).0 p,
        ground (arith, p, ap (λ (a : EndpointInfo). a.url) same, string_eq.beq_iff x.url e.url),
      )
  | inr p ↦ let (a, b) = first_with-id id es e rest (ground (arith, h, p)) in (a, ground (arith, b))
]

none_with-id :
    (id : String) (es : List EndpointInfo)
    → filter (λ x. x.id == id) es ≡ []
    → any (λ x. x.id == id) es ≡ false
none_with-id id [] h = refl
none_with-id id (x ∷ es) h = elim (Bool-cases (x.id == id)) [
  | inl p ↦ absurd (ground (arith, h, p))
  | inr p ↦ ground (arith, p, none_with-id id es (ground (arith, h, p)))
]

module _ (engine : Call → Answer) (path : String) (q : Dict String String)
    (endpoints : List EndpointInfo) where
  -- The one call of the run: to an endpoint that is listed under the id, with every parameter but the id.
  abbrev pub Called : Call → Type 0
  Called call =
      (id : String) × (Dict.get q "id" ≡ some id)
      × (any (λ x. x.url == call.url && x.id == id) endpoints ≡ true)
      × (call.path ≡ path)
      × ((k : String) → Dict.get call.params k ≡ (if k == "id" then none else Dict.get q k))

  -- A label is changed as the path says, and only behind an answer under 400.
  abbrev pub Labelled : Call → Run → Type 0
  Labelled call run =
      (run.labellings ≡ [])
      ⊎ ((status : ℕ) × (body : Outcome Json) × (engine call ≡ answered status body)
          × (status < 400)
          × (pod : Option String) × (run.labellings ≡ labelling_for path pod))

  -- Nothing is sent for a client that names no endpoint of the list, or whose body cannot be read.
  abbrev pub Unsent : Body → Type 0
  Unsent body =
      (Dict.get q "id" ≡ none)
      ⊎ (((id : String) × (Dict.get q "id" ≡ some id) × (any (λ x. x.id == id) endpoints ≡ false))
          ⊎ ((e : Error) × (body ≡ some (raise e))))

  abbrev pub Targeted : Body → Run → Type 0
  Targeted body run =
      ((run.sent ≡ []) × (run.labellings ≡ []) × Unsent body)
      ⊎ ((call : Call) × (run.sent ≡ call ∷ []) × Called call × Labelled call run)

  module _ (relabel : Labelling → Outcome (Unit {0})) where
    after_post-Targeted :
        (sent_body : Body) (call : Call) (pod : Option String) (answer : Answer)
        → engine call ≡ answer
        → Called call
        → Targeted sent_body (after_post call pod relabel answer)
    unfolding after_post
    after_post-Targeted sent_body call pod (failed e) p c = inr (call, refl, c, inl refl)
    after_post-Targeted sent_body call pod (answered status body) p c =
        elim (Bool-cases (leb 400 status)) [
          | inl h ↦ rw h (inr (call, refl, c, inl refl))
          | inr h ↦
              let (id, listed, found, same, params) = c in
              rw h (
                inr (
                  call,
                  refl,
                  (id, listed, found, same, params),
                  inr (status, body, p, ground (arith, h), pod, ap (λ t. labelling_for t pod) same),
                ))
        ]

    after_get-Targeted :
        (sent_body : Body) (call : Call) (answer : Answer)
        → Called call
        → Targeted sent_body (after_get call answer)
    unfolding after_get
    after_get-Targeted sent_body call (failed e) c = inr (call, refl, c, inl refl)
    after_get-Targeted sent_body call (answered status body) c = inr (call, refl, c, inl refl)

    module _ (e : EndpointInfo) (params : Dict String String) where
      -- What each call of the engine needs to be one of those that may be made.
      abbrev Due : Type 0
      Due =
          (id : String) × (Dict.get q "id" ≡ some id)
          × (any (λ x. x.url == e.url && x.id == id) endpoints ≡ true)
          × ((k : String) → Dict.get params k ≡ (if k == "id" then none else Dict.get q k))

      called :
          Due
          → (body : Option Json)
          → Called (record { url = e.url; path = path; params = params; body = body })
      called (id, listed, found, same) body = (id, listed, found, refl, same)

      post-Targeted : (body : Body) → Due → Targeted body (post engine relabel e path params body)
      unfolding post
      post-Targeted (some (raise x)) d = inl (refl, refl, inr (inr (x, refl)))
      post-Targeted (some (return v)) d =
          after_post-Targeted (some (return v)) _ e.pod_name _ refl (called d (some v))
      post-Targeted none d = after_post-Targeted none _ e.pod_name _ refl (called d none)

      ask-Targeted : (body : Body) → Due → Targeted body (ask engine relabel e path params body)
      unfolding ask
      ask-Targeted body d = elim (Bool-cases (path == "/is_sleeping")) [
        | inl p ↦ rw p (after_get-Targeted body _ _ (called d none))
        | inr p ↦ rw p (post-Targeted body d)
      ]

    ask_first-Targeted :
        (id : String) (body : Body) (found : List EndpointInfo)
        → Dict.get q "id" ≡ some id
        → filter (λ x. x.id == id) endpoints ≡ found
        → Targeted body (ask_first engine relabel path (upstream_params q) body found)
    unfolding ask_first
    ask_first-Targeted id body [] p h =
        inl (refl, refl, inr (inl (id, p, none_with-id id endpoints h)))
    ask_first-Targeted id body (e ∷ rest) p h =
        ask-Targeted e (upstream_params q) body
          (id, p, (first_with-id id endpoints e rest h).1, get-upstream_params q)

    ask_target-Targeted :
        (body : Body) (id : Option String)
        → Dict.get q "id" ≡ id
        → Targeted body (ask_target engine relabel path q body endpoints id)
    unfolding ask_target
    ask_target-Targeted body none p = inl (refl, refl, inl p)
    ask_target-Targeted body (some id) p =
        ask_first-Targeted id body (filter (λ x. x.id == id) endpoints) p refl

    -- However the engine answers: nothing is sent if the client names no engine that is listed, or if
    -- its body cannot be read. Otherwise one request is sent. It goes to an endpoint that is listed under
    -- the id that the client names, on the client's path, with every parameter of the client's query
    -- but the id. A label is changed only as the path says, and only where that request was answered
    -- with a status under 400.
    pub route_sleep_wakeup_request-Targeted :
        (body : Body)
        → Targeted body (route_sleep_wakeup_request engine relabel path q body endpoints)
    unfolding route_sleep_wakeup_request
    route_sleep_wakeup_request-Targeted body = ask_target-Targeted body (Dict.get q "id") refl
