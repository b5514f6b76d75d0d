-- ===== src/Request/Prefill/Phases.antt =====
-- The two phases of a disaggregated request, and what each engine is sent.
use production_stack.Base.Names.{
  ℕ, String, ◌≡◌, refl, ap, ◌∙◌, ◌⊎◌, inl, inr, Bool, true, false, not, Option, none, some, [], ◌∷◌,
  arith,
}
use production_stack.Base.Tests.{ltb, if◌then◌else◌}
use production_stack.Base.Eq.{◌==◌, string_eq}
use production_stack.Base.Int.{pos}
use production_stack.Base.Json.{
  Json, Fields, bool, int, lookup, mentions, assign, without, lookup-assign, lookup-without,
  mentions-lookup,
}
use production_stack.Base.Outcome.{attribute_error}
use production_stack.Request.Orchestrated.{
  Engines, Answer, answered, no_connection, broken, text, interrupted,
}
use production_stack.Request.Prefill.{
  DecodeEngines, prefiller_error, raised, Run, Clients, prefiller_data, prefill_request,
  prefill_failure, decode_stream, decode_phase, after_prefill, prefill_phase,
  route_disaggregated_prefill_request,
}

-- What a field of the prefill body is, from that of the client's body.
abbrev pub prefilled : String → Option Json → Option Json
prefilled k before =
    if "stream_options" == k
    then none
    else if "stream" == k
    then some (bool false)
    else if "min_tokens" == k
    then none
    else if "max_tokens" == k
    then some (int (pos 1))
    else if "max_completion_tokens" == k
    then none
    else before

-- Once it has been taken out, `max_completion_tokens` is not put back.
module _ (fs : Fields) where
  abbrev popped : Fields
  popped = without (assign fs "max_tokens" (int (pos 1))) "max_completion_tokens"

  abbrev limited : Fields
  limited = assign popped "max_tokens" (int (pos 1))

  limited-absent : mentions limited "max_completion_tokens" ≡ false
  limited-absent = ground (
    arith,
    mentions-lookup limited "max_completion_tokens",
    lookup-assign popped "max_tokens" (int (pos 1)) "max_completion_tokens",
    lookup-without (assign fs "max_tokens" (int (pos 1))) "max_completion_tokens"
        "max_completion_tokens",
  )

  lookup-limited :
      (k : String)
      → lookup limited k ≡ (
          if "max_tokens" == k
          then some (int (pos 1))
          else if "max_completion_tokens" == k
          then none
          else lookup fs k)
  lookup-limited k = ground (
    arith,
    lookup-assign popped "max_tokens" (int (pos 1)) k,
    lookup-without (assign fs "max_tokens" (int (pos 1))) "max_completion_tokens" k,
    lookup-assign fs "max_tokens" (int (pos 1)) k,
  )

  prefill_request-lookup : (k : String) → lookup (prefill_request fs) k ≡ prefilled k (lookup fs k)
  unfolding prefill_request prefiller_data
  prefill_request-lookup k = rw (limited-absent) (
      ground (
        arith,
        lookup-without (assign (without limited "min_tokens") "stream" (bool false))
            "stream_options" k,
        lookup-assign (without limited "min_tokens") "stream" (bool false) k,
        lookup-without limited "min_tokens" k,
        lookup-limited k,
      ))

-- The prefill has gone through: an answer below 400 that is JSON.
abbrev pub usable : Answer → Bool
usable (answered status (text true (some v))) = ltb status 400
usable answer = false

abbrev failed : Option ℕ → Bool
failed none = false
failed (some status) = true

usable-prefill_failure : (a : Answer) → usable a ≡ not (failed (prefill_failure a))
unfolding prefill_failure
usable-prefill_failure no_connection = refl
usable-prefill_failure broken = refl
usable-prefill_failure (answered n interrupted) = ground arith
usable-prefill_failure (answered n (text false v)) = refl
usable-prefill_failure (answered n (text true none)) = ground arith
usable-prefill_failure (answered n (text true (some v))) = ground arith

-- A refused prefill, and a served one.
abbrev pub Refused : Engines → Clients → String → Fields → Run → Type 0
Refused engines clients url body run =
    (status : ℕ) × (usable (engines url body) ≡ false)
    × (prefill_failure (engines url body) ≡ some status)
    × (run
        ≡ record { reply = prefiller_error status; sent = record { url = url; body = body } ∷ [] })

abbrev pub Decoded : DecodeEngines → Clients → Fields → String → Fields → Run → Type 0
Decoded decoders clients fs url body run =
    (decoder : String) × (clients.decode_client ≡ some decoder)
    × (run ≡ record {
      reply = decode_stream (decoders decoder fs);
      sent = record { url = decoder; body = fs } ∷ record { url = url; body = body } ∷ [];
    })

abbrev pub Undecoded : Clients → String → Fields → Run → Type 0
Undecoded clients url body run =
    (clients.decode_client ≡ none)
    × (run
        ≡ record { reply = raised attribute_error; sent = record { url = url; body = body } ∷ [] })

-- The prefill engine was sent a body with the fields that a prefill has, and refused or served it.
abbrev pub Prefilled : Engines → DecodeEngines → Clients → Fields → Option String → Run → Type 0
Prefilled engines decoders clients fs none run =
    run ≡ record { reply = prefiller_error 500; sent = [] }
Prefilled engines decoders clients fs (some url) run =
    (body : Fields) × ((k : String) → lookup body k ≡ prefilled k (lookup fs k))
    × (Refused engines clients url body run
        ⊎ ((usable (engines url body) ≡ true)
            × (Undecoded clients url body run ⊎ Decoded decoders clients fs url body run)))

module _ (engines : Engines) (decoders : DecodeEngines) (clients : Clients) (fs : Fields) where
  decoded :
      (url : String) (decoder : Option String)
      → clients.decode_client ≡ decoder
      → let run =
          decode_phase decoders decoder (record { url = url; body = prefill_request fs } ∷ []) fs in
        Undecoded clients url (prefill_request fs) run
        ⊎ Decoded decoders clients fs url (prefill_request fs) run
  unfolding decode_phase
  decoded url none p = inl (p, refl)
  decoded url (some d) p = inr (d, p, refl)

  prefilled_lem :
      (url : String) (failure : Option ℕ)
      → prefill_failure (engines url (prefill_request fs)) ≡ failure
      → let run =
          after_prefill decoders clients
            (record { url = url; body = prefill_request fs } ∷ [])
            fs
            failure in
        Refused engines clients url (prefill_request fs) run
        ⊎ ((usable (engines url (prefill_request fs)) ≡ true)
            × (Undecoded clients url (prefill_request fs) run
                ⊎ Decoded decoders clients fs url (prefill_request fs) run))
  unfolding after_prefill
  prefilled_lem url (some status) p =
      let answer = engines url (prefill_request fs) in
      inl (status, usable-prefill_failure answer ∙ ap (λ o. not (failed o)) p, p, refl)
  prefilled_lem url none p =
      let answer = engines url (prefill_request fs) in
      inr (
        usable-prefill_failure answer ∙ ap (λ o. not (failed o)) p,
        decoded url clients.decode_client refl,
      )

  phases :
      (client : Option String)
      → Prefilled engines decoders clients fs client
          (prefill_phase engines decoders clients fs client)
  unfolding prefill_phase
  phases none = refl
  phases (some url) = (
    prefill_request fs,
    prefill_request-lookup fs,
    prefilled_lem url (prefill_failure (engines url (prefill_request fs))) refl,
  )

-- A disaggregated request. Without a prefill client it is answered with 500 and nothing is sent.
-- Otherwise the prefill engine is sent one body, for a single token and not streamed, with neither a
-- bound on the completion, nor a least number of tokens, nor options for a stream, and every other
-- field as the client has it. Unless that is answered with JSON and a status below 400, the client is
-- told the status of the failure and no decode engine is asked; if it is, the decode engine is sent the client's own body, once, and the reply is its stream,
-- or the handler raises, where there is no decode client.
pub route_disaggregated_prefill_request_lem :
    (engines : Engines) (decoders : DecodeEngines) (clients : Clients) (fs : Fields)
    → Prefilled engines decoders clients fs clients.prefill_client
        (route_disaggregated_prefill_request engines decoders clients fs)
unfolding route_disaggregated_prefill_request
route_disaggregated_prefill_request_lem engines decoders clients fs =
    phases engines decoders clients fs clients.prefill_client
