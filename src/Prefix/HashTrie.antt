-- ===== src/Prefix/HashTrie.antt =====
-- src/vllm_router/prefix/hashtrie.py. A coroutine gives up the loop only where it waits for a lock
-- that another holds; every lock is let go before the next wait, so each call is one step. A prompt
-- is the list of its code points, and `xxhash.xxh64(...).intdigest()` is a parameter.
pub mod Chunks
pub mod Record
pub mod Match
use production_stack.Base.Names.{
  ℕ, zero, suc, ◌+◌, String, Bool, true, false, Option, none, some, List, [], ◌∷◌, ◌++◌,
}
use production_stack.Base.Tests.{nat_beq, if◌then◌else◌}
use production_stack.Base.Eq.{contains, string_eq}
use production_stack.Base.Lists.{length, filter, is_empty}

-- A `TrieNode`: its `endpoints`, and its `children` by the hash of the next chunk.
mutual
  pub data Node : Type 0 where
    node : List String → Children → Node

  pub data Children : Type 0 where
    nil : Children
    cons : ℕ → Node → Children → Children

abbrev pub endpoints : Node → List String
endpoints (node eps cs) = eps

abbrev pub children : Node → Children
children (node eps cs) = cs

-- TrieNode()
abbrev pub fresh : Node
fresh = node [] nil

-- children.get(h)
unfoldable pub child : Children → ℕ → Option Node
child nil h = none
child (cons j n cs) h = if nat_beq j h then some n else child cs h

-- children[h] = n
unfoldable pub set_child : Children → ℕ → Node → Children
set_child nil h n = cons h n nil
set_child (cons j m cs) h n = if nat_beq j h then cons j n cs else cons j m (set_child cs h n)

-- endpoints.add(e)
unfoldable pub add_endpoint : List String → String → List String
unfolding contains
add_endpoint eps e = if contains eps e then eps else eps ++ e ∷ []

abbrev pub or_fresh : Option Node → Node
or_fresh none = fresh
or_fresh (some n) = n

-- The walk of `insert` along the hashes of the chunks, from the node that it has reached.
unfoldable pub insert_path : List ℕ → String → Node → Node
unfolding add_endpoint set_child child
insert_path [] e (node eps cs) = node (add_endpoint eps e) cs
insert_path (h ∷ hs) e (node eps cs) =
    node (add_endpoint eps e) (set_child cs h (insert_path hs e (or_fresh (child cs h))))

-- endpoints.intersection(selected)
abbrev pub intersection : List String → List String → List String
intersection eps selected = filter (contains eps) selected

-- The loop of `longest_prefix_match`.
unfoldable pub match_path : ℕ → List ℕ → Node → ℕ → List String → ℕ × List String
unfolding child contains
match_path chunk_size [] n match_length selected = (match_length, selected)
match_path chunk_size (h ∷ hs) n match_length selected = elim (child (children n) h) [
  | none ↦ (match_length, selected)
  | some c ↦
      let rest =
        match_path chunk_size hs c (match_length + chunk_size)
          (intersection (endpoints c) selected) in
      if is_empty (intersection (endpoints c) selected) then (match_length, selected) else rest
]

abbrev pub take : ℕ → List ℕ → List ℕ
take zero xs = []
take (suc n) [] = []
take (suc n) (x ∷ xs) = x ∷ take n xs

abbrev pub drop : ℕ → List ℕ → List ℕ
drop zero xs = xs
drop (suc n) [] = []
drop (suc n) (x ∷ xs) = drop n xs

-- request[i : i + chunk_size] for i in range(0, len(request), chunk_size); the length of the
-- request is fuel enough, since a chunk takes at least one character: the chunk size is taken as
-- positive, and is 128 unless the code says another one; with 0, range() would raise.
unfoldable pub chunks_from : ℕ → ℕ → List ℕ → List (List ℕ)
chunks_from zero chunk_size request = []
chunks_from (suc fuel) chunk_size [] = []
chunks_from (suc fuel) chunk_size (c ∷ cs) =
    take chunk_size (c ∷ cs) ∷ chunks_from fuel chunk_size (drop chunk_size (c ∷ cs))

unfoldable pub chunks : ℕ → List ℕ → List (List ℕ)
unfolding chunks_from
chunks chunk_size request = chunks_from (length request) chunk_size request

pub record HashTrie : Type 0 where
  pub root : Node
  pub chunk_size : ℕ

unfoldable pub init : ℕ → HashTrie
init chunk_size = record { root = fresh; chunk_size = chunk_size }

module _ (hash : List ℕ → ℕ) where
  unfoldable pub chunk_and_hash : ℕ → List ℕ → List ℕ
  unfolding chunks
  chunk_and_hash chunk_size request = hash_all (chunks chunk_size request)
    where
      hash_all : List (List ℕ) → List ℕ
      hash_all [] = []
      hash_all (c ∷ cs) = hash c ∷ hash_all cs

  unfoldable pub insert : HashTrie → List ℕ → String → HashTrie
  unfolding chunk_and_hash insert_path
  insert t request endpoint = record t {
    root = insert_path (chunk_and_hash t.chunk_size request) endpoint t.root;
  }

  unfoldable pub longest_prefix_match : HashTrie → List ℕ → List String → ℕ × List String
  unfolding chunk_and_hash match_path
  longest_prefix_match t request available =
      match_path t.chunk_size (chunk_and_hash t.chunk_size request) t.root 0 available
