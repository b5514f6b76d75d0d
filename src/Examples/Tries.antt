-- ===== src/Examples/Tries.antt =====
-- Examples on the prefix trie, with the length of a chunk as its hash.
use production_stack.Base.Names.{
  ℕ, suc, ◌*◌, ◌<◌, ◌≤◌, String, ◌≡◌, false, ◌&&◌, List, [], ◌∷◌, arith,
}
use production_stack.Base.Eq.{string_eq, contains}
use production_stack.Base.Lists.{length, All}
use production_stack.Prefix.HashTrie.{init, take, chunks, chunk_and_hash, longest_prefix_match}
use production_stack.Prefix.HashTrie.Chunks.{concat, Fits, chunks_partition}
use production_stack.Prefix.HashTrie.Match.{insert_all, hashed, holds, prefix_match_longest}

abbrev total : List ℕ → ℕ
total = length

abbrev hist : List (List ℕ × String)
hist = (1 ∷ 2 ∷ 3 ∷ [], "a") ∷ (1 ∷ 2 ∷ [], "b") ∷ []

abbrev request : List ℕ
request = 1 ∷ 2 ∷ 4 ∷ []

abbrev available : List String
available = "a" ∷ "b" ∷ []

chunks_partition_example : (concat (chunks 2 request) ≡ request) × All (Fits 2) (chunks 2 request)
chunks_partition_example = chunks_partition 2 request (omega arith)

prefix_match_longest_example :
    (k : ℕ) × ((longest_prefix_match total (insert_all total (init 2) hist) request available).0
      ≡ k * 2)
    × (k ≤ length (chunk_and_hash total 2 request))
    × ((e : String)
        → contains
            (longest_prefix_match total (insert_all total (init 2) hist) request available).1
            e
          ≡ (contains available e
              && holds (hashed total 2 hist) (take k (chunk_and_hash total 2 request)) e))
    × (k < length (chunk_and_hash total 2 request)
        → (e : String)
        → (contains available e
            && holds (hashed total 2 hist) (take (suc k) (chunk_and_hash total 2 request)) e)
          ≡ false)
prefix_match_longest_example = prefix_match_longest total 2 hist request available
