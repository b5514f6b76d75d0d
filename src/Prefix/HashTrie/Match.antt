-- ===== src/Prefix/HashTrie/Match.antt =====
-- `longest_prefix_match` finds the longest stored prefix, and the endpoints that were sent it.
use mathlib.Core.Bool.{false≢true}
use mathlib.Core.Path.{fun_ext}
use production_stack.Base.Names.{
  ℕ, zero, suc, ◌+◌, ◌*◌, ◌≤◌, ◌<◌, String, ◌≡◌, refl, sym, ap, ◌∙◌, inl, inr, Bool, true, false,
  ◌&&◌, none, some, List, [], ◌∷◌, ◌++◌, arith,
}
use production_stack.Base.Tests.{ltb, ltb→lt, Bool-cases, Option-cases}
use production_stack.Base.Eq.{nat_eq, string_eq, contains}
use production_stack.Base.Lists.{contains-filter, length, is_empty}
use production_stack.Prefix.HashTrie.{
  Node, endpoints, children, fresh, child, intersection, insert_path, match_path, take, HashTrie,
  init, insert, chunk_and_hash, longest_prefix_match,
}
use production_stack.Prefix.HashTrie.Record.{
  is_prefix, recorded, History, build, served, recorded-build, Closed, served-Closed,
}

-- The predicate holds at every non-empty prefix of the path.
abbrev pub along : (List ℕ → Bool) → List ℕ → Bool
along P [] = true
along P (h ∷ hs) = P (h ∷ []) && along (λ q. P (h ∷ q)) hs

-- `k` chunks of the path were matched from the node `n`, where `before` were still selected.
abbrev pub Matched : ℕ → List ℕ → Node → List String → ℕ → List String → Type 0
Matched chunk_size path n before k selected =
    (k ≤ length path)
    × ((e : String)
        → contains selected e ≡ (contains before e && along (λ q. recorded q n e) (take k path)))
    × (k < length path
        → (e : String)
        → (contains before e && along (λ q. recorded q n e) (take (suc k) path)) ≡ false)

contains-is_empty : (xs : List String) (e : String) → is_empty xs ≡ true → contains xs e ≡ false
unfolding contains
contains-is_empty [] e h = refl
contains-is_empty (x ∷ xs) e h = ground arith

and_left_comm : (a b c : Bool) → (a && (b && c)) ≡ ((b && a) && c)
and_left_comm a b c = ground arith

and_true : (b : Bool) → b ≡ (b && true)
and_true true = refl
and_true false = refl

module _ (h : ℕ) (n : Node) (e : String) where
  recorded-none : (q : List ℕ) → child (children n) h ≡ none → recorded (h ∷ q) n e ≡ false
  unfolding recorded
  recorded-none q p = rw (p, recorded)

  recorded-some :
      (c : Node)
      → child (children n) h ≡ some c
      → ◌≡◌ {A = List ℕ → Bool} (λ q. recorded (h ∷ q) n e) (λ q. recorded q c e)
  recorded-some c p = fun_ext λ q. step q
    where
      step : (q : List ℕ) → recorded (h ∷ q) n e ≡ recorded q c e
      step q = unfold recorded in rw (p, recorded)

recorded-nil : (c : Node) (e : String) → recorded [] c e ≡ contains (endpoints c) e
unfolding recorded
recorded-nil c e = refl

-- One matched chunk.
along-step :
    (h : ℕ) (hs : List ℕ) (n c : Node) (before : List String) (e : String)
    → child (children n) h ≡ some c
    → (contains before e && along (λ q. recorded q n e) (h ∷ hs))
      ≡ (contains (intersection (endpoints c) before) e && along (λ q. recorded q c e) hs)
along-step h hs n c before e p =
    let shift = recorded-some h n e c p in
    let first : recorded (h ∷ []) n e ≡ contains (endpoints c) e =
      ap (λ (f : List ℕ → Bool). f []) shift ∙ recorded-nil c e in
    rw (shift, first, contains-filter (contains (endpoints c)) before e)
      (and_left_comm (contains before e) _ _)

pub match_path-Matched :
    (chunk_size : ℕ) (path : List ℕ) (n : Node) (l : ℕ) (before : List String)
    → (k : ℕ) × ((match_path chunk_size path n l before).0 ≡ l + k * chunk_size)
      × Matched chunk_size path n before k (match_path chunk_size path n l before).1
unfolding match_path
match_path-Matched chunk_size [] n l before =
    (0, omega arith, (omega arith, λ e. and_true _, λ h. absurd (omega arith)))
match_path-Matched chunk_size (h ∷ hs) n l before = elim (Option-cases (child (children n) h)) [
  | inl p ↦
      rw (p, match_path)
        (
          0,
          omega arith,
          (omega arith, λ e. and_true _, λ q e. ground (arith, recorded-none h n e [] p)),
        )
  | inr (c, p) ↦
      let inter : List String = intersection (endpoints c) before in
      elim (Bool-cases (is_empty inter)) [
        | inl none_left ↦
            rw (p, match_path)
              (rw none_left (
                0,
                omega arith,
                (
                  omega arith,
                  λ e. and_true _,
                  λ q e.
                      along-step h [] n c before e p
                      ∙ ap (λ b. b && true) (contains-is_empty inter e none_left),
                ),
              ))
        | inr some_left ↦
            let (k, len, found) = match_path-Matched chunk_size hs c (l + chunk_size) inter in
            rw (p, match_path)
              (rw some_left (
                suc k,
                len ∙ omega arith,
                (
                  omega (arith, found.0),
                  λ e. found.1 e ∙ sym (along-step h (take k hs) n c before e p),
                  λ q e. along-step h (take (suc k) hs) n c before e p ∙ found.2 (omega arith) e,
                ),
              ))
      ]
]

along-Closed : (P : List ℕ → Bool) (h : ℕ) (hs : List ℕ) → Closed P → along P (h ∷ hs) ≡ P (h ∷ hs)
along-Closed P h [] c = sym (and_true (P (h ∷ [])))
along-Closed P h (j ∷ js) c =
    ground (arith, along-Closed (λ q. P (h ∷ q)) j js (λ p r. c (h ∷ p) r), c (h ∷ []) (j ∷ js))

-- Some request that starts with the path was sent to the endpoint; the empty path asks nothing.
abbrev pub holds : History → List ℕ → String → Bool
holds hist [] e = true
holds hist (h ∷ hs) e = served hist (h ∷ hs) e

along-holds :
    (hist : History) (p : List ℕ) (e : String)
    → along (λ q. recorded q (build fresh hist) e) p ≡ holds hist p e
along-holds hist [] e = refl
along-holds hist (h ∷ hs) e =
    ap (λ (f : List ℕ → Bool). along f (h ∷ hs)) (fun_ext λ q. recorded-build hist q e)
    ∙ along-Closed (λ q. served hist q e) h hs (served-Closed hist e)

take-is_prefix : (k : ℕ) (q : List ℕ) → is_prefix (take k q) q ≡ true
take-is_prefix zero q = refl
take-is_prefix (suc k) [] = refl
take-is_prefix (suc k) (x ∷ q) = ground (arith, take-is_prefix k q)

served-last :
    (hist : History) (q p : List ℕ) (e : String)
    → is_prefix p q ≡ true
    → served (hist ++ (q, e) ∷ []) p e ≡ true
unfolding served
served-last [] q p e h = ground (arith, h, string_eq.beq_iff e e)
served-last ((r, a) ∷ hist) q p e h = ground (arith, served-last hist q p e h)

holds-last :
    (hist : History) (q : List ℕ) (e : String) (k : ℕ)
    → holds (hist ++ (q, e) ∷ []) (take k q) e ≡ true
holds-last hist q e zero = refl
holds-last hist [] e (suc k) = refl
holds-last hist (x ∷ q) e (suc k) =
    served-last hist (x ∷ q) (x ∷ take k q) e (take-is_prefix (suc k) (x ∷ q))

take-length : (q : List ℕ) → take (length q) q ≡ q
take-length [] = refl
take-length (x ∷ q) = ap (◌∷◌ x) (take-length q)

holds-last_whole :
    (hist : History) (q : List ℕ) (e : String) → holds (hist ++ (q, e) ∷ []) q e ≡ true
holds-last_whole hist q e =
    ap (λ (p : List ℕ). holds (hist ++ (q, e) ∷ []) p e) (sym (take-length q))
    ∙ holds-last hist q e (length q)

module _ (hash : List ℕ → ℕ) where
  -- The calls of `insert` so far.
  unfoldable pub insert_all : HashTrie → List (List ℕ × String) → HashTrie
  insert_all t [] = t
  insert_all t ((request, e) ∷ rest) = insert_all (insert hash t request e) rest

  -- The same calls, with the hashes of the chunks for the request.
  abbrev pub hashed : ℕ → List (List ℕ × String) → History
  hashed n [] = []
  hashed n ((request, e) ∷ rest) = (chunk_and_hash hash n request, e) ∷ hashed n rest

  root-insert_all :
      (n : ℕ) (r : Node) (hist : List (List ℕ × String))
      → insert_all (record { root = r; chunk_size = n }) hist
        ≡ record { root = build r (hashed n hist); chunk_size = n }
  unfolding insert_all build insert
  root-insert_all n r [] = refl
  root-insert_all n r ((request, e) ∷ rest) =
      root-insert_all n (insert_path (chunk_and_hash hash n request) e r) rest

  -- In a trie built by any history of insertions, `longest_prefix_match` stops after some `k` chunks
  -- of the request and reports `k` chunk sizes. It selects exactly the available endpoints that were
  -- sent a request with the same first `k` chunks (all the available ones for `k` = 0), up to the
  -- hash. If it stopped before the end, no available endpoint was sent one more chunk of it.
  pub prefix_match_longest :
      (n : ℕ) (hist : List (List ℕ × String)) (request : List ℕ) (available : List String)
      → let found = longest_prefix_match hash (insert_all (init n) hist) request available in
        let path = chunk_and_hash hash n request in
        (k : ℕ) × (found.0 ≡ k * n)
        × (k ≤ length path)
        × ((e : String)
            → contains found.1 e ≡ (contains available e && holds (hashed n hist) (take k path) e))
        × (k < length path
            → (e : String)
            → (contains available e && holds (hashed n hist) (take (suc k) path) e) ≡ false)
  unfolding longest_prefix_match init
  prefix_match_longest n hist request available = rw (root-insert_all n fresh hist) (
      let path : List ℕ = chunk_and_hash hash n request in
      let (k, len, found) = match_path-Matched n path (build fresh (hashed n hist)) 0 available in
      (
        k,
        len ∙ omega arith,
        found.0,
        (λ e.
            found.1 e
            ∙ ap (λ b. contains available e && b) (along-holds (hashed n hist) (take k path) e)),
        λ h e.
            sym (
              ap (λ b. contains available e && b)
                (along-holds (hashed n hist) (take (suc k) path) e))
            ∙ found.2 h e,
      ))

  hashed-append :
      (n : ℕ) (hist : List (List ℕ × String)) (request : List ℕ) (e : String)
      → hashed n (hist ++ (request, e) ∷ [])
        ≡ hashed n hist ++ (chunk_and_hash hash n request, e) ∷ []
  hashed-append n [] request e = refl
  hashed-append n ((r, a) ∷ rest) request e =
      ap (◌∷◌ (chunk_and_hash hash n r, a)) (hashed-append n rest request e)

  -- The same request is then matched to its end.
  pub insert_then_match_whole :
      (n : ℕ) (hist : List (List ℕ × String)) (request : List ℕ) (e : String)
      (available : List String)
      → contains available e ≡ true
      → let t = insert_all (init n) (hist ++ (request, e) ∷ []) in
        let found = longest_prefix_match hash t request available in
        let path = chunk_and_hash hash n request in
        (found.0 ≡ length path * n)
        × ((a : String)
            → contains found.1 a
              ≡ (contains available a && holds (hashed n (hist ++ (request, e) ∷ [])) path a))
  insert_then_match_whole n hist request e available h =
      let path : List ℕ = chunk_and_hash hash n request in
      let stored : (k : ℕ) → holds (hashed n (hist ++ (request, e) ∷ [])) (take k path) e ≡ true =
        λ k. rw (hashed-append n hist request e) (holds-last (hashed n hist) path e k) in
      let (k, len, bound, sel, stop) =
        prefix_match_longest n (hist ++ (request, e) ∷ []) request available in
      let whole : k ≡ length path = elim (Bool-cases (ltb k (length path))) [
        | inl lt ↦ absurd (false≢true (sym (stop (ltb→lt _ _ lt) e) ∙ both h (stored (suc k))))
        | inr ge ↦ ground (arith, ge, bound)
      ] in
      (
        len ∙ ap (λ (j : ℕ). j * n) whole,
        λ a.
            sel a
            ∙ ap
                (λ (q : List ℕ).
                  contains available a && holds (hashed n (hist ++ (request, e) ∷ [])) q a)
                (ap (λ j. take j path) whole ∙ take-length path),
      )
    where
      both : {a b : Bool} → a ≡ true → b ≡ true → (a && b) ≡ true
      both p q = rw (p, q)

  -- Once a request has been recorded for an endpoint that is available, whatever was recorded
  -- before, a match of the same request runs through all its chunks and selects the endpoint.
  pub insert_then_match :
      (n : ℕ) (hist : List (List ℕ × String)) (request : List ℕ) (e : String)
      (available : List String)
      → contains available e ≡ true
      → let t = insert_all (init n) (hist ++ (request, e) ∷ []) in
        let found = longest_prefix_match hash t request available in
        (found.0 ≡ length (chunk_and_hash hash n request) * n) × (contains found.1 e ≡ true)
  insert_then_match n hist request e available h =
      let (len, sel) = insert_then_match_whole n hist request e available h in
      let stored : holds (hashed n (hist ++ (request, e) ∷ [])) (chunk_and_hash hash n request) e
          ≡ true =
        rw (hashed-append n hist request e)
          (holds-last_whole (hashed n hist) (chunk_and_hash hash n request) e) in
      (len, ground (arith, sel e, h, stored))

  -- The last insertion.
  pub insert_all-append :
      (t : HashTrie) (hist : List (List ℕ × String)) (request : List ℕ) (e : String)
      → insert_all t (hist ++ (request, e) ∷ []) ≡ insert hash (insert_all t hist) request e
  unfolding insert_all
  insert_all-append t [] request e = refl
  insert_all-append t ((a, b) ∷ rest) request e =
      insert_all-append (insert hash t a b) rest request e
