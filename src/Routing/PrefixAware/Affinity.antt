-- ===== src/Routing/PrefixAware/Affinity.antt =====
-- The prefix-aware route stays among the endpoints, and a prompt comes back to where it has been.
use production_stack.Base.Names.{
  ℕ, ◌+◌, ◌*◌, ◌≤◌, String, ◌≡◌, refl, sym, ap, ◌∙◌, inl, inr, true, false, Option, some, List, [],
  ◌∷◌, ◌++◌, arith,
}
use production_stack.Base.Tests.{ltb, Bool-cases, Option-cases}
use production_stack.Base.Eq.{string_eq, contains}
use production_stack.Base.Lists.{length, dedup, contains-dedup, is_empty}
use production_stack.Base.Float.{Float}
use production_stack.Base.Dict.{Dict}
use production_stack.Base.Json.{Fields}
use production_stack.Base.Outcome.{Outcome, return, raise}
use production_stack.Endpoint.{EndpointInfo, urls}
use production_stack.Stats.Monitor.Report.{RequestStats}
use production_stack.Routing.Qps.{qps_routing, qps_routing-IsLeast}
use production_stack.Prefix.HashTrie.{
  Node, endpoints, children, child, intersection, match_path, HashTrie, init, insert,
  chunk_and_hash, longest_prefix_match,
}
use production_stack.Prefix.HashTrie.Match.{
  insert_all, hashed, holds, match_path-Matched, insert_then_match_whole, insert_then_match,
  insert_all-append,
}
use production_stack.Routing.PrefixAware.{
  PrefixAwareRouter, with_insert, route_prompt, with_prompt, prompt, route_request,
}

-- `random.choice` takes a member of a list that has one.
abbrev pub IsChoice : (List String → Option String) → Type 0
IsChoice choice =
    (xs : List String)
    → is_empty xs ≡ false
    → (u : String) × (choice xs ≡ some u) × (contains xs u ≡ true)

nonempty-of-contains : (xs : List String) (u : String) → contains xs u ≡ true → is_empty xs ≡ false
unfolding contains
nonempty-of-contains [] u h = absurd (ground (arith, h))
nonempty-of-contains (x ∷ xs) u h = refl

module _ (float : Float) (hash : List ℕ → ℕ) (choice : List String → Option String) where
  open float use {F}

  route_prompt-choice :
      (r : PrefixAwareRouter) (text : List ℕ) (es : List EndpointInfo)
      (stats : Dict String (RequestStats F))
      → IsChoice choice
      → let found = longest_prefix_match hash r.hashtrie text (dedup (urls es)) in
        r.prefix_min_match_length ≤ found.0
        → is_empty found.1 ≡ false
        → (u : String) × (contains found.1 u ≡ true)
          × (route_prompt float hash choice r text es stats
              ≡ (return (some u), with_insert float hash choice r text u))
  unfolding route_prompt
  route_prompt-choice r text es stats lawful long some_left =
      let found = longest_prefix_match hash r.hashtrie text (dedup (urls es)) in
      let (u, p, c) = lawful found.1 some_left in
      let enough : ltb found.0 r.prefix_min_match_length ≡ false = ground (arith, long) in
      (u, c, rw (enough, p) refl)

  -- Something is always selected where something is available.
  match_path-nonempty :
      (n : ℕ) (path : List ℕ) (t : Node) (l : ℕ) (before : List String)
      → is_empty before ≡ false
      → is_empty (match_path n path t l before).1 ≡ false
  unfolding match_path
  match_path-nonempty n [] t l before h = h
  match_path-nonempty n (x ∷ path) t l before h = elim (Option-cases (child (children t) x)) [
    | inl p ↦ rw (p, match_path) h
    | inr (c, p) ↦ elim (Bool-cases (is_empty (intersection (endpoints c) before))) [
      | inl q ↦ rw (p, match_path) (rw q h)
      | inr q ↦
          rw (p, match_path)
            (rw q (match_path-nonempty n path c (l + n) (intersection (endpoints c) before) q))
    ]
  ]

  longest_prefix_match-nonempty :
      (t : HashTrie) (text : List ℕ) (e : EndpointInfo) (es : List EndpointInfo)
      → is_empty (longest_prefix_match hash t text (dedup (urls (e ∷ es)))).1 ≡ false
  unfolding longest_prefix_match contains
  longest_prefix_match-nonempty t text e es =
      match_path-nonempty t.chunk_size (chunk_and_hash hash t.chunk_size text) t.root 0
        (dedup (urls (e ∷ es)))
        (nonempty-of-contains (dedup (urls (e ∷ es))) e.url
          (ground (arith, contains-dedup (urls (e ∷ es)) e.url, string_eq.beq_iff e.url e.url)))

  -- What was matched was available.
  longest_prefix_match-subset :
      (t : HashTrie) (text : List ℕ) (es : List EndpointInfo) (u : String)
      → contains (longest_prefix_match hash t text (dedup (urls es))).1 u ≡ true
      → contains (urls es) u ≡ true
  unfolding longest_prefix_match
  longest_prefix_match-subset t text es u h =
      let (k, len, found) =
        match_path-Matched t.chunk_size (chunk_and_hash hash t.chunk_size text) t.root 0
          (dedup (urls es)) in
      ground (arith, found.1 u, contains-dedup (urls es) u)

  route_prompt-mem :
      (r : PrefixAwareRouter) (text : List ℕ) (e : EndpointInfo) (es : List EndpointInfo)
      (stats : Dict String (RequestStats F))
      → IsChoice choice
      → (u : String) × (contains (urls (e ∷ es)) u ≡ true)
        × (route_prompt float hash choice r text (e ∷ es) stats
            ≡ (return (some u), with_insert float hash choice r text u))
  route_prompt-mem r text e es stats lawful =
      let found = longest_prefix_match hash r.hashtrie text (dedup (urls (e ∷ es))) in
      elim (Bool-cases (ltb found.0 r.prefix_min_match_length)) [
        | inl short ↦
            let (u, p, d) = qps_routing-IsLeast float stats e es in
            (u, elim d [ inl q ↦ q.1 | inr q ↦ q.2 ], unfold route_prompt in rw (short, p) refl)
        | inr long ↦
            let (u, c, p) =
              route_prompt-choice r text (e ∷ es) stats lawful (ground (arith, long))
                (longest_prefix_match-nonempty r.hashtrie text e es) in
            (u, longest_prefix_match-subset r.hashtrie text (e ∷ es) u c, p)
      ]

  again_route :
      (n : ℕ) (hist : List (List ℕ × String)) (r : PrefixAwareRouter) (text : List ℕ) (u : String)
      (later : List EndpointInfo) (stats : Dict String (RequestStats F))
      → IsChoice choice
      → r.hashtrie ≡ insert_all hash (init n) (hist ++ (text, u) ∷ [])
      → r.prefix_min_match_length ≤ length (chunk_and_hash hash n text) * n
      → contains (urls later) u ≡ true
      → (u' : String) × (contains (urls later) u' ≡ true)
        × ((route_prompt float hash choice r text later stats).0 ≡ return (some u'))
        × (holds (hashed hash n (hist ++ (text, u) ∷ [])) (chunk_and_hash hash n text) u' ≡ true)
  again_route n hist r text u later stats lawful built long there =
      let available : List String = dedup (urls later) in
      let c : contains available u ≡ true = contains-dedup (urls later) u ∙ there in
      let (len, sel) = insert_then_match_whole hash n hist text u available c in
      let (_, kept) = insert_then_match hash n hist text u available c in
      let same = ap (λ t. longest_prefix_match hash t text available) built in
      let (u', in_found, q) =
        route_prompt-choice r text later stats lawful
          (omega (arith, ap (λ (x : ℕ × List String). x.0) same, len, long))
          (nonempty-of-contains (longest_prefix_match hash r.hashtrie text available).1 u
            (ap (λ (x : ℕ × List String). contains x.1 u) same ∙ kept)) in
      let listed =
        sym (sel u') ∙ sym (ap (λ (x : ℕ × List String). contains x.1 u') same) ∙ in_found in
      (
        u',
        longest_prefix_match-subset r.hashtrie text later u' in_found,
        ap (λ (x : Outcome (Option String) × PrefixAwareRouter). x.0) q,
        ground (arith, listed),
      )

  -- An answer is recorded.
  route_prompt-recorded :
      (r : PrefixAwareRouter) (text : List ℕ) (es : List EndpointInfo)
      (stats : Dict String (RequestStats F)) (u : String)
      → (route_prompt float hash choice r text es stats).0 ≡ return (some u)
      → (route_prompt float hash choice r text es stats).1 ≡ with_insert float hash choice r text u
  unfolding route_prompt
  route_prompt-recorded r text es stats u h =
      let found = longest_prefix_match hash r.hashtrie text (dedup (urls es)) in
      elim (Bool-cases (ltb found.0 r.prefix_min_match_length)) [
        | inl p ↦ elim (Option-cases (qps_routing float es stats)) [
          | inl q ↦ absurd (ground (arith, p, q, h))
          | inr (v, q) ↦
              let same : v ≡ u = ground (arith, p, q, h) in
              rw (p, q) (ap (with_insert float hash choice r text) same)
        ]
        | inr p ↦ elim (Option-cases (choice found.1)) [
          | inl q ↦ absurd (ground (arith, p, q, h))
          | inr (v, q) ↦
              let same : v ≡ u = ground (arith, p, q, h) in
              rw (p, q) (ap (with_insert float hash choice r text) same)
        ]
      ]

  abbrev pub Answered :
      PrefixAwareRouter
      → List EndpointInfo
      → Outcome (List ℕ)
      → Outcome (Option String) × PrefixAwareRouter
      → Type 0
  Answered r endpoints (raise e) result = result ≡ (raise e, r)
  Answered r endpoints (return text) result =
      (u : String) × (contains (urls endpoints) u ≡ true)
      × (result ≡ (return (some u), with_insert float hash choice r text u))

  -- Among at least one endpoint, a request is sent to one of them and its prompt is recorded for it,
  -- whatever the trie holds; a request whose prompt cannot be read raises and records nothing.
  pub route_request-Answered :
      (r : PrefixAwareRouter) (e : EndpointInfo) (es : List EndpointInfo)
      (stats : Dict String (RequestStats F)) (body : Fields)
      → IsChoice choice
      → Answered r (e ∷ es) (prompt body) (route_request float hash choice r (e ∷ es) stats body)
  unfolding route_request
  route_request-Answered r e es stats body lawful = answered (prompt body)
    where
      answered :
          (text : Outcome (List ℕ))
          → Answered r (e ∷ es) text (
              with_prompt float hash choice r text
                (λ t. route_prompt float hash choice r t (e ∷ es) stats))
      answered (raise x) = refl
      answered (return text) = route_prompt-mem r text e es stats lawful

  -- A prompt comes back to where it has been: if a prompt was sent to an endpoint, after any history
  -- of prompts, and the same prompt comes again while that endpoint is there, and the prompt is as
  -- long in whole chunks as the least match asked for, it goes to an endpoint that is there and that
  -- was sent a prompt with the same chunks, up to the hash, whatever the request rates are then.
  pub prompt_affinity :
      (n : ℕ) (hist : List (List ℕ × String)) (r : PrefixAwareRouter)
      (endpoints later : List EndpointInfo) (stats stats' : Dict String (RequestStats F))
      (body body' : Fields) (text : List ℕ) (u : String)
      → IsChoice choice
      → r.hashtrie ≡ insert_all hash (init n) hist
      → prompt body ≡ return text
      → prompt body' ≡ return text
      → r.prefix_min_match_length ≤ length (chunk_and_hash hash n text) * n
      → (route_request float hash choice r endpoints stats body).0 ≡ return (some u)
      → contains (urls later) u ≡ true
      → let first = route_request float hash choice r endpoints stats body in
        (u' : String) × ((route_request float hash choice first.1 later stats' body').0
          ≡ return (some u'))
        × (contains (urls later) u' ≡ true)
        × (holds (hashed hash n (hist ++ (text, u) ∷ [])) (chunk_and_hash hash n text) u' ≡ true)
  unfolding route_request
  prompt_affinity n hist r endpoints later stats stats' body body' text u lawful built p p' long
        first there =
      let direct : (route_prompt float hash choice r text endpoints stats).0 ≡ return (some u) =
        ap
          (λ t.
            (with_prompt float hash choice r t
              (λ t'. route_prompt float hash choice r t' endpoints stats)).0)
          (sym p)
        ∙ first in
      let recorded_ = route_prompt-recorded r text endpoints stats u direct in
      let (u', c, q, s) =
        again_route n hist (with_insert float hash choice r text u) text u later stats' lawful
          (ap (λ t. insert hash t text u) built ∙ sym (insert_all-append hash (init n) hist text u))
          long there in
      (u', rw (p, recorded_, p') q, c, s)
