-- ===== src/Prefix/HashTrie/Record.antt =====
-- What the trie stands for: which endpoint was sent a request that starts with a given path.
use production_stack.Base.Names.{
  ℕ, String, ◌≡◌, refl, ap, ◌∙◌, inl, inr, Bool, true, false, ◌&&◌, ◌||◌, none, some, List, [], ◌∷◌,
  ◌++◌, arith,
}
use production_stack.Base.Tests.{nat_beq, if◌then◌else◌, Bool-cases}
use production_stack.Base.Eq.{◌==◌, nat_eq, string_eq, contains}
use production_stack.Base.Lists.{contains-append}
use production_stack.Prefix.HashTrie.{
  Node, node, Children, nil, cons, endpoints, children, fresh, child, set_child, add_endpoint,
  or_fresh, insert_path,
}

-- The endpoint is in the node that the path leads to.
unfoldable pub recorded : List ℕ → Node → String → Bool
recorded [] n e = contains (endpoints n) e
recorded (h ∷ hs) n e = elim (child (children n) h) [ none ↦ false | some c ↦ recorded hs c e ]

abbrev pub is_prefix : List ℕ → List ℕ → Bool
is_prefix [] q = true
is_prefix (h ∷ hs) [] = false
is_prefix (h ∷ hs) (j ∷ js) = nat_beq h j && is_prefix hs js

contains-add_endpoint :
    (eps : List String) (e a : String)
    → contains (add_endpoint eps e) a ≡ (contains eps a || e == a)
unfolding add_endpoint contains
contains-add_endpoint eps e a = elim (Bool-cases (contains eps e)) [
  | inl p ↦ rw p (ground (arith, string_eq.beq_iff e a, p))
  | inr p ↦ rw p (ground (arith, contains-append eps (e ∷ []) a))
]

child-set_child :
    (cs : Children) (h : ℕ) (n : Node) (j : ℕ)
    → child (set_child cs h n) j ≡ (if nat_beq h j then some n else child cs j)
unfolding child set_child
child-set_child nil h n j = refl
child-set_child (cons i m cs) h n j = ground (arith, child-set_child cs h n j)

recorded-fresh : (p : List ℕ) (e : String) → recorded p fresh e ≡ false
unfolding recorded child contains
recorded-fresh [] e = refl
recorded-fresh (h ∷ hs) e = refl

-- One insertion adds its endpoint at the prefixes of its path, and changes nothing else.
recorded-insert_path :
    (q : List ℕ) (e' : String) (n : Node) (p : List ℕ) (e : String)
    → recorded p (insert_path q e' n) e ≡ (recorded p n e || (is_prefix p q && e' == e))
unfolding recorded insert_path
recorded-insert_path [] e' (node eps cs) [] e = contains-add_endpoint eps e' e
recorded-insert_path [] e' (node eps cs) (h ∷ hs) e = ground arith
recorded-insert_path (j ∷ js) e' (node eps cs) [] e = contains-add_endpoint eps e' e
recorded-insert_path (j ∷ js) e' (node eps cs) (h ∷ hs) e =
    let below = insert_path js e' (or_fresh (child cs j)) in
    ground (
      arith,
      child-set_child cs j below h,
      recorded-insert_path js e' (or_fresh (child cs j)) hs e,
      recorded-fresh hs e,
    )

-- The insertions so far, oldest first: the hashes of the chunks, and the endpoint.
abbrev pub History : Type 0
History = List (List ℕ × String)

unfoldable pub build : Node → History → Node
build n [] = n
build n ((q, e) ∷ hist) = build (insert_path q e n) hist

-- The specification: some request that starts with the path was sent to the endpoint.
unfoldable pub served : History → List ℕ → String → Bool
served [] p e = false
served ((q, e') ∷ hist) p e = (is_prefix p q && e' == e) || served hist p e

or_assoc : (a b c : Bool) → ((a || b) || c) ≡ (a || (b || c))
or_assoc true b c = refl
or_assoc false b c = refl

recorded-build_from :
    (hist : History) (n : Node) (p : List ℕ) (e : String)
    → recorded p (build n hist) e ≡ (recorded p n e || served hist p e)
unfolding build served
recorded-build_from [] n p e = ground arith
recorded-build_from ((q, e') ∷ hist) n p e =
    recorded-build_from hist (insert_path q e' n) p e
    ∙ ap (λ t. t || served hist p e) (recorded-insert_path q e' n p e)
    ∙ or_assoc (recorded p n e) (is_prefix p q && e' == e) (served hist p e)

-- The trie refines its history: whatever was inserted and in whatever order, an endpoint stands at
-- a path just when one of the insertions for it was of a request that starts with the path.
pub recorded-build :
    (hist : History) (p : List ℕ) (e : String) → recorded p (build fresh hist) e ≡ served hist p e
recorded-build hist p e =
    recorded-build_from hist fresh p e ∙ ap (λ t. t || served hist p e) (recorded-fresh p e)

is_prefix-shorter : (p r q : List ℕ) → is_prefix (p ++ r) q ≡ true → is_prefix p q ≡ true
is_prefix-shorter [] r q h = refl
is_prefix-shorter (x ∷ p) r [] h = h
is_prefix-shorter (x ∷ p) r (y ∷ q) h = ground (arith, is_prefix-shorter p r q)

-- A predicate on paths that holds at the prefixes of a path where it holds.
abbrev pub Closed : (List ℕ → Bool) → Type 0
Closed P = (p r : List ℕ) → P (p ++ r) ≡ true → P p ≡ true

pub served-Closed : (hist : History) (e : String) → Closed (λ p. served hist p e)
unfolding served
served-Closed [] e p r h = h
served-Closed ((q, e') ∷ hist) e p r h =
    ground (arith, is_prefix-shorter p r q, served-Closed hist e p r)
