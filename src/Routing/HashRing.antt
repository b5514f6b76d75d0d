-- ===== src/Routing/HashRing.antt =====
-- The consistent-hash ring of the package uhashring, as an interface, and
-- `RoutingInterface._update_hash_ring` of src/vllm_router/routers/routing_logic.py, its client.
use production_stack.Base.Names.{
  String, ◌≡◌, refl, Bool, true, false, not, ◌&&◌, ◌||◌, Option, some, List, [], ◌∷◌, arith,
}
use production_stack.Base.Eq.{◌==◌, string_eq, contains}
use production_stack.Base.Lists.{contains-filter, filter, dedup, contains-dedup}
use production_stack.Base.Json.{Json}
use production_stack.Endpoint.{EndpointInfo, urls}

-- `get_node` gives a node of the ring while there is one, and taking a node away moves only the
-- keys that were on it.
pub record HashRing : Type 1 where
  pub Ring : Type 0
  pub empty : Ring
  pub get_nodes : Ring → List String
  pub add_node : Ring → String → Ring
  pub remove_node : Ring → String → Ring
  pub get_node : Ring → Json → Option String
  pub contains-empty : (a : String) → contains (get_nodes empty) a ≡ false
  pub contains-add_node :
      (r : Ring) (n a : String)
      → contains (get_nodes (add_node r n)) a ≡ (n == a || contains (get_nodes r) a)
  pub contains-remove_node :
      (r : Ring) (n a : String)
      → contains (get_nodes (remove_node r n)) a ≡ (not (n == a) && contains (get_nodes r) a)
  pub get_node-mem :
      (r : Ring) (key : Json) (a : String)
      → contains (get_nodes r) a ≡ true
      → (u : String) × (get_node r key ≡ some u) × (contains (get_nodes r) u ≡ true)
  pub get_node-remove_node :
      (r : Ring) (key : Json) (u n : String)
      → get_node r key ≡ some u
      → (n == u) ≡ false
      → get_node (remove_node r n) key ≡ some u

module _ (ring : HashRing) where
  open ring use {
    Ring, get_nodes, add_node, remove_node, get_node, contains-add_node, contains-remove_node,
    get_node-mem, get_node-remove_node,
  }

  unfoldable pub remove_nodes : Ring → List String → Ring
  remove_nodes r [] = r
  remove_nodes r (n ∷ ns) = remove_nodes (remove_node r n) ns

  unfoldable pub add_nodes : Ring → List String → Ring
  add_nodes r [] = r
  add_nodes r (n ∷ ns) = add_nodes (add_node r n) ns

  -- The differences of the two sets of nodes; in which order Python goes through them is not
  -- modelled.
  unfoldable pub update_hash_ring : Ring → List EndpointInfo → Ring
  unfolding remove_nodes add_nodes
  update_hash_ring r endpoints =
      let current : List String = dedup (get_nodes r) in
      let new : List String = dedup (urls endpoints) in
      add_nodes (remove_nodes r (filter (λ n. not (contains new n)) current))
        (filter (λ n. not (contains current n)) new)

  contains-remove_nodes :
      (ns : List String) (r : Ring) (a : String)
      → contains (get_nodes (remove_nodes r ns)) a
        ≡ (not (contains ns a) && contains (get_nodes r) a)
  unfolding remove_nodes contains
  contains-remove_nodes [] r a = refl
  contains-remove_nodes (n ∷ ns) r a =
      ground (arith, contains-remove_nodes ns (remove_node r n) a, contains-remove_node r n a)

  contains-add_nodes :
      (ns : List String) (r : Ring) (a : String)
      → contains (get_nodes (add_nodes r ns)) a ≡ (contains ns a || contains (get_nodes r) a)
  unfolding add_nodes contains
  contains-add_nodes [] r a = refl
  contains-add_nodes (n ∷ ns) r a =
      ground (arith, contains-add_nodes ns (add_node r n) a, contains-add_node r n a)

  -- After the update the ring has exactly the nodes of the endpoints, whatever it had before.
  pub contains-update_hash_ring :
      (r : Ring) (endpoints : List EndpointInfo) (a : String)
      → contains (get_nodes (update_hash_ring r endpoints)) a ≡ contains (urls endpoints) a
  unfolding update_hash_ring
  contains-update_hash_ring r endpoints a =
      let current : List String = dedup (get_nodes r) in
      let new : List String = dedup (urls endpoints) in
      let gone : List String = filter (λ n. not (contains new n)) current in
      ground (
        arith,
        contains-add_nodes (filter (λ n. not (contains current n)) new) (remove_nodes r gone) a,
        contains-remove_nodes gone r a,
        contains-filter (λ n. not (contains new n)) current a,
        contains-filter (λ n. not (contains current n)) new a,
        contains-dedup (get_nodes r) a,
        contains-dedup (urls endpoints) a,
      )

  -- A key keeps its node through removals that spare the node.
  get_node-remove_nodes :
      (ns : List String) (r : Ring) (key : Json) (u : String)
      → get_node r key ≡ some u
      → contains ns u ≡ false
      → get_node (remove_nodes r ns) key ≡ some u
  unfolding remove_nodes contains
  get_node-remove_nodes [] r key u h c = h
  get_node-remove_nodes (n ∷ ns) r key u h c =
      get_node-remove_nodes ns (remove_node r n) key u
        (get_node-remove_node r key u n h (ground arith)) (ground arith)

  filter_none :
      (p : String → Bool) (xs : List String)
      → ((x : String) → contains xs x ≡ true → p x ≡ false)
      → filter p xs ≡ []
  unfolding contains
  filter_none p [] h = refl
  filter_none p (x ∷ xs) h =
      ground (arith, h x, string_eq.beq_iff x x, filter_none p xs (λ y c. h y (ground (arith, c))))

  -- When the endpoints only lose members, a key stays on its node as long as the node is left.
  pub update_hash_ring_sticky :
      (r : Ring) (endpoints : List EndpointInfo) (key : Json) (u : String)
      → ((a : String) → contains (urls endpoints) a ≡ true → contains (get_nodes r) a ≡ true)
      → get_node r key ≡ some u
      → contains (urls endpoints) u ≡ true
      → get_node (update_hash_ring r endpoints) key ≡ some u
  unfolding update_hash_ring add_nodes
  update_hash_ring_sticky r endpoints key u shrinks h c =
      let current : List String = dedup (get_nodes r) in
      let new : List String = dedup (urls endpoints) in
      let gone : List String = filter (λ n. not (contains new n)) current in
      let none_new : filter (λ n. not (contains current n)) new ≡ [] =
        filter_none (λ n. not (contains current n)) new
          (λ x k. ground (
            arith,
            contains-dedup (get_nodes r) x,
            shrinks x,
            contains-dedup (urls endpoints) x,
          )) in
      rw none_new (
        get_node-remove_nodes gone r key u h (
          ground (
            arith,
            contains-filter (λ n. not (contains new n)) current u,
            contains-dedup (urls endpoints) u,
          )))
