-- ===== src/Request/Orchestrated/Bodies.antt =====
-- What the two engines of an orchestrated request are sent.
use production_stack.Base.Names.{
  String, ◌≡◌, refl, sym, ap, ◌∙◌, inl, inr, Bool, true, false, none, some, arith, ◌||◌,
}
use production_stack.Base.Tests.{if◌then◌else◌, Bool-cases, Option-cases}
use production_stack.Base.Eq.{◌==◌, string_eq}
use production_stack.Base.Int.{pos}
use production_stack.Base.Json.{
  Json, Fields, null, bool, int, str, obj, float, arr, lookup, mentions, assign, without, truthy,
  lookup-assign, lookup-without, mentions-lookup,
}
use production_stack.Request.Orchestrated.{
  transfer_params, assign_present, prefill_body, remote_host, hand_over, or_false, decode_body,
}

-- The fields that the router writes for the prefill engine.
abbrev pub rewritten : String → Bool
rewritten k =
    "max_tokens" == k
    || ("max_completion_tokens" == k
        || ("kv_transfer_params" == k || ("stream" == k || "stream_options" == k)))

lookup-assign_present :
    (fs : Fields) (k : String) (v : Json) (j : String)
    → ((k == j) ≡ false → lookup (assign_present fs k v) j ≡ lookup fs j)
      × ((k == j) ≡ true → mentions fs k ≡ true → lookup (assign_present fs k v) j ≡ some v)
lookup-assign_present fs k v j = (
  λ h. ground (arith, h, lookup-assign fs k v j),
  λ h m. ground (arith, h, m, lookup-assign fs k v j),
)

-- What an engine is asked for first: `max_tokens` is one, and so is `max_completion_tokens` where
-- the client gave it; the answer comes in one piece; and the transfer parameters are those that make
-- the engine keep the cache for another one. Every other field of the client's request, `min_tokens`
-- among them, is left as it is.
pub prefill_body_lem :
    (fs : Fields)
    → (lookup (prefill_body fs) "max_tokens" ≡ some (int (pos 1)))
      × (lookup (prefill_body fs) "max_completion_tokens"
          ≡ (if mentions fs "max_completion_tokens" then some (int (pos 1)) else none))
      × (lookup (prefill_body fs) "stream" ≡ some (bool false))
      × (lookup (prefill_body fs) "stream_options" ≡ none)
      × (lookup (prefill_body fs) "kv_transfer_params" ≡ some transfer_params)
      × ((k : String) → rewritten k ≡ false → lookup (prefill_body fs) k ≡ lookup fs k)
unfolding prefill_body
prefill_body_lem fs = (
  at "max_tokens"
      ∙ (lookup-assign_present d1 "max_completion_tokens" (int (pos 1)) "max_tokens").0 refl
      ∙ lookup-assign fs "max_tokens" (int (pos 1)) "max_tokens",
  at "max_completion_tokens" ∙ completion,
  at "stream",
  lookup-without d4 "stream_options" "stream_options",
  at "kv_transfer_params",
  λ k h. ground (
    arith,
    h,
    lookup-without d4 "stream_options" k,
    lookup-assign d3 "stream" (bool false) k,
    lookup-assign d2 "kv_transfer_params" transfer_params k,
    lookup-assign_present d1 "max_completion_tokens" (int (pos 1)) k,
    lookup-assign fs "max_tokens" (int (pos 1)) k,
  ),
)
  where
    d1 : Fields
    d1 = assign fs "max_tokens" (int (pos 1))

    d2 : Fields
    d2 = assign_present d1 "max_completion_tokens" (int (pos 1))

    d3 : Fields
    d3 = assign d2 "kv_transfer_params" transfer_params

    d4 : Fields
    d4 = assign d3 "stream" (bool false)

    completion :
        lookup d2 "max_completion_tokens"
        ≡ (if mentions fs "max_completion_tokens" then some (int (pos 1)) else none)
    completion = ground (
      arith,
      mentions-lookup fs "max_completion_tokens",
      mentions-lookup d1 "max_completion_tokens",
      lookup-assign fs "max_tokens" (int (pos 1)) "max_completion_tokens",
      lookup-assign d1 "max_completion_tokens" (int (pos 1)) "max_completion_tokens",
    )

    at :
        (k : String)
        → lookup (without d4 "stream_options") k ≡ (
            if "stream_options" == k
            then none
            else if "stream" == k
            then some (bool false)
            else if "kv_transfer_params" == k
            then some transfer_params
            else lookup d2 k)
    at k = ground (
      arith,
      lookup-without d4 "stream_options" k,
      lookup-assign d3 "stream" (bool false) k,
      lookup-assign d2 "kv_transfer_params" transfer_params k,
    )

hand_over-frame :
    (fs body : Fields) (prefill_url : String) (params : Json) (k : String)
    → hand_over fs prefill_url params ≡ some body
    → ("kv_transfer_params" == k) ≡ false
    → lookup body k ≡ lookup fs k
hand_over-frame fs body u (obj ps) k h n = elim (Option-cases (remote_host u)) [
  | inl p ↦ absurd (ground (arith, p, h))
  | inr (host, p) ↦
      let body' : Fields =
        assign fs "kv_transfer_params" (obj (assign ps "remote_host" (str host))) in
      let same : body' ≡ body = ground (arith, p, h) in
      ap (λ b. lookup b k) (sym same)
      ∙ ground (
        arith,
        n,
        lookup-assign fs "kv_transfer_params" (obj (assign ps "remote_host" (str host))) k,
      )
]
hand_over-frame fs body u null k h n = absurd (ground (arith, h))
hand_over-frame fs body u (bool b) k h n = absurd (ground (arith, h))
hand_over-frame fs body u (int z) k h n = absurd (ground (arith, h))
hand_over-frame fs body u (float z e) k h n = absurd (ground (arith, h))
hand_over-frame fs body u (str t) k h n = absurd (ground (arith, h))
hand_over-frame fs body u (arr xs) k h n = absurd (ground (arith, h))

-- The second body differs from the client's request in the transfer parameters alone.
pub decode_body-frame :
    (fs body : Fields) (u : String) (answer : Json) (k : String)
    → decode_body fs u answer ≡ some body
    → ("kv_transfer_params" == k) ≡ false
    → lookup body k ≡ lookup fs k
unfolding decode_body
decode_body-frame fs body u (obj pd) k h n =
    elim (Bool-cases (truthy (or_false (lookup pd "kv_transfer_params")))) [
      | inl p ↦
          hand_over-frame fs body u (or_false (lookup pd "kv_transfer_params")) k
            (ground (arith, p, h)) n
      | inr p ↦ ap (λ b. lookup b k) (sym (ground (arith, p, h)))
    ]
decode_body-frame fs body u null k h n = absurd (ground (arith, h))
decode_body-frame fs body u (bool b) k h n = absurd (ground (arith, h))
decode_body-frame fs body u (int z) k h n = absurd (ground (arith, h))
decode_body-frame fs body u (float z e) k h n = absurd (ground (arith, h))
decode_body-frame fs body u (str t) k h n = absurd (ground (arith, h))
decode_body-frame fs body u (arr xs) k h n = absurd (ground (arith, h))
