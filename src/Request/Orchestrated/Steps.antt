-- ===== src/Request/Orchestrated/Steps.antt =====
-- Which engines an orchestrated request reaches, in which order, and what the client gets.
use production_stack.Base.Text.{str_append}
use production_stack.Base.Names.{
  ℕ, String, ◌+◌, ◌≡◌, refl, sym, ap, ◌∙◌, subst, ◌⊎◌, inl, inr, Bool, true, false, Option, none,
  some, List, [], ◌∷◌,
}
use production_stack.Base.Tests.{nat_beq, nat_beq_iff, Bool-cases, Option-cases}
use production_stack.Base.Eq.{◌==◌, string_eq, contains}
use production_stack.Base.Json.{Json, Fields, lookup}
use production_stack.Base.Outcome.{http_exception}
use production_stack.Endpoint.{EndpointInfo, urls}
use production_stack.Routing.Disaggregated.{
  OrchestratedRouter, with_label, both_found, find_endpoints, select_prefill_endpoint,
  select_decode_endpoint,
}
use production_stack.Routing.Disaggregated.Turns.{labelled, take_turn-mem, contains-with_label}
use production_stack.Request.Orchestrated.{
  Answer, text, interrupted, answered, no_connection, broken, Engines, error_response, raised, Sent,
  Run, prefill_body, decode_body, decode_reply, is_streaming, send_decode, with_data, after_prefill,
  orchestrate, with_found, route_orchestrated,
}
use production_stack.Request.Orchestrated.Bodies.{decode_body-frame}

module _ (engines : Engines) (path : String) (router : OrchestratedRouter)
    (endpoints : List EndpointInfo) (request_json : Fields) where
  abbrev prefill_answer : String → Answer
  prefill_answer u = engines (str_append u path) (prefill_body request_json)

  -- No engine has one of the labels.
  abbrev pub Missing : List String → Type 0
  Missing labels = (u : String) → labelled labels endpoints u ≡ false

  -- One kind of engine is missing: nothing is sent.
  abbrev pub Refused : Run → Type 0
  Refused run =
      (Missing router.prefill_model_labels ⊎ Missing router.decode_model_labels)
      × ((detail : String) × (run.reply ≡ raised (http_exception 503 detail)))
      × (run.sent ≡ [])
      × (run.router ≡ router)

  -- An answer of the prefill engine that ends the request, with the status that the client gets.
  pub data Fails : String → Answer → ℕ → Type 0 where
    unreachable : (p : String) → Fails p no_connection 503
    crashed : (p : String) → Fails p broken 500
    unread : (p : String) (n : ℕ) → Fails p (answered n interrupted) 503
    bad_status :
        (p : String) (n : ℕ) (is_json : Bool) (v : Option Json)
        → nat_beq n 200 ≡ false
        → Fails p (answered n (text is_json v)) n
    other_content : (p : String) (v : Option Json) → Fails p (answered 200 (text false v)) 503
    malformed : (p : String) → Fails p (answered 200 (text true none)) 500
    unusable :
        (p : String) (v : Json)
        → decode_body request_json p v ≡ none
        → Fails p (answered 200 (text true (some v))) 500

  -- Only a prefill engine is reached, its answer fails, and the client gets an error.
  abbrev pub Half : String → Run → Type 0
  Half p run =
      (run.sent ≡ record { url = p; body = prefill_body request_json } ∷ [])
      × (status : ℕ) × (run.reply ≡ error_response status)
      × Fails p (prefill_answer p) status

  -- The prefill engine answers 200 with JSON, the decode engine is sent what follows from it, and the
  -- client gets the decode engine's answer.
  abbrev pub Whole : String → String → Run → Type 0
  Whole p d run =
      (v : Json) × (body : Fields) × (prefill_answer p ≡ answered 200 (text true (some v)))
      × (decode_body request_json p v ≡ some body)
      × ((k : String) → ("kv_transfer_params" == k) ≡ false → lookup body k ≡ lookup request_json k)
      × (run.sent
          ≡ record { url = d; body = body }
            ∷ record { url = p; body = prefill_body request_json }
            ∷ [])
      × (run.reply ≡ decode_reply (is_streaming request_json) (engines (str_append d path) body))

  abbrev sent_prefill : String → List Sent
  sent_prefill p = record { url = p; body = prefill_body request_json } ∷ []

  failing :
      {p : String} {a : Answer} {status : ℕ}
      → prefill_answer p ≡ a
      → Fails p a status
      → Fails p (prefill_answer p) status
  failing {p} {a} {status} h f = subst (λ b. Fails p b status) (sym h) f

  after_prefill-cases :
      (r : OrchestratedRouter) (p d : String) (a : Answer)
      → prefill_answer p ≡ a
      → let run = after_prefill engines path r (sent_prefill p) request_json p d a in
        (run.router ≡ r) × (Half p run ⊎ Whole p d run)
  unfolding after_prefill with_data send_decode
  after_prefill-cases r p d no_connection h =
      (refl, inl (refl, 503, refl, failing h (unreachable p)))
  after_prefill-cases r p d broken h = (refl, inl (refl, 500, refl, failing h (crashed p)))
  after_prefill-cases r p d (answered status interrupted) h =
      (refl, inl (refl, 503, refl, failing h (unread p status)))
  after_prefill-cases r p d (answered status (text is_json v)) h =
      elim (Bool-cases (nat_beq status 200)) [
        | inl q ↦ rw q (
            data_cases is_json v
              (h ∙ ap (λ n. answered n (text is_json v)) ((nat_beq_iff status 200).0 q)))
        | inr q ↦ rw q (refl, inl (refl, status, refl, failing h (bad_status p status is_json v q)))
      ]
    where
      data_cases :
          (is_json : Bool) (v : Option Json)
          → prefill_answer p ≡ answered 200 (text is_json v)
          → let run = with_data engines path r (sent_prefill p) request_json p d is_json v in
            (run.router ≡ r) × (Half p run ⊎ Whole p d run)
      data_cases false v k = (refl, inl (refl, 503, refl, failing k (other_content p v)))
      data_cases true none k = (refl, inl (refl, 500, refl, failing k (malformed p)))
      data_cases true (some v) k = elim (Option-cases (decode_body request_json p v)) [
        | inl q ↦ rw q (refl, inl (refl, 500, refl, failing k (unusable p v q)))
        | inr (body, q) ↦ rw q (
          refl,
          inr (v, body, k, q, (λ f n. decode_body-frame request_json body p v f q n), refl, refl),
        )
      ]

  abbrev pub Ended : Run → Type 0
  Ended run =
      Refused run
      ⊎ ((p : String) × (d : String) × (labelled router.prefill_model_labels endpoints p ≡ true)
          × (labelled router.decode_model_labels endpoints d ≡ true)
          × (run.router.prefill_idx ≡ router.prefill_idx + 1)
          × (run.router.decode_idx ≡ router.decode_idx + 1)
          × (Half p run ⊎ Whole p d run))

  with_found-Ended :
      (ps ds : List EndpointInfo)
      → ((u : String) → contains (urls ps) u ≡ labelled router.prefill_model_labels endpoints u)
      → ((u : String) → contains (urls ds) u ≡ labelled router.decode_model_labels endpoints u)
      → Ended (with_found engines path router request_json (both_found ps ds))
  unfolding with_found contains select_prefill_endpoint select_decode_endpoint orchestrate
  with_found-Ended [] ds hp hd = inl (inl (λ u. sym (hp u)), (_, refl), refl, refl)
  with_found-Ended (p ∷ ps) [] hp hd = inl (inr (λ u. sym (hd u)), (_, refl), refl, refl)
  with_found-Ended (p ∷ ps) (d ∷ ds) hp hd =
      let (x, a, c) = take_turn-mem p ps router.prefill_idx in
      let (y, b, c') = take_turn-mem d ds router.decode_idx in
      let r : OrchestratedRouter = record router {
        prefill_idx = router.prefill_idx + 1;
        decode_idx = router.decode_idx + 1;
      } in
      let (same, end_) = after_prefill-cases r x.url y.url (prefill_answer x.url) refl in
      rw (a, b)
        (inr (
          x.url,
          y.url,
          sym (hp x.url) ∙ c,
          sym (hd y.url) ∙ c',
          ap (λ (t : OrchestratedRouter). t.prefill_idx) same,
          ap (λ (t : OrchestratedRouter). t.decode_idx) same,
          end_,
        ))

  -- An orchestrated request ends in one of three ways. No engine has a prefill label, or none has a
  -- decode label: it is refused with 503, nothing is sent and the rotations stand still. Or there are
  -- engines of both kinds: it goes to one with a prefill label, and both rotations move on by one.
  -- It stops there just when the answer fails, with the engine's own status if that is not 200, with
  -- 503 if the engine is not reached, is cut off or sends no JSON, and with 500 if the JSON cannot be
  -- used or anything else breaks. Or else that engine has answered 200 with JSON, and a second
  -- request goes to an engine with a decode label, whose answer is the client's; its body is the
  -- client's but for the transfer parameters.
  pub orchestrated_request : Ended (route_orchestrated engines path router endpoints request_json)
  unfolding route_orchestrated find_endpoints
  orchestrated_request =
      with_found-Ended (with_label router.prefill_model_labels endpoints)
        (with_label router.decode_model_labels endpoints)
        (contains-with_label router.prefill_model_labels endpoints)
        (contains-with_label router.decode_model_labels endpoints)
