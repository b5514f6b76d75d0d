-- ===== src/Routing/RoundRobin.antt =====
-- `RoundRobinRouter` of src/vllm_router/routers/routing_logic.py.
pub mod Cache
pub mod Fairness
use production_stack.Base.Names.{
  ℕ, suc, ◌+◌, String, Bool, true, false, not, ◌&&◌, Option, none, some, List, [], ◌∷◌, ◌++◌,
}
use production_stack.Base.Tests.{leb, if◌then◌else◌}
use production_stack.Base.Eq.{◌==◌, string_eq, list_eq, contains}
use production_stack.Base.Lists.{length, all, dedup, is_empty}
use production_stack.Base.Sort.{sorted}
use production_stack.Base.Dict
use production_stack.Base.Dict.{Dict}
use production_stack.Base.Outcome.{Outcome, return, raise, value_error}
use production_stack.Endpoint.{EndpointInfo, urls}
use production_stack.Routing.Rotation.{pick}

-- `_MAX_CACHE_SIZE`
abbrev pub max_cache_size : ℕ
max_cache_size = 1024

-- A key of `_sorted_cache` is a frozenset: a list without repetitions, up to its order.
pub record RoundRobinRouter : Type 0 where
  pub next_index : Dict (List String) ℕ
  pub sorted_cache : List (List String × List String)

unfoldable pub init : RoundRobinRouter
init = record { next_index = []; sorted_cache = [] }

-- Equality of sets.
unfoldable pub same_set : List String → List String → Bool
unfolding contains
same_set xs ys = all (contains ys) xs && all (contains xs) ys

-- _sorted_cache.get(urls)
unfoldable pub cached : List (List String × List String) → List String → Option (List String)
unfolding same_set
cached [] us = none
cached ((vs, key) ∷ rest) us = if same_set vs us then some key else cached rest us

unfoldable pub remember :
    List (List String × List String) → List String → List (List String × List String)
remember cache us =
    (if leb max_cache_size (length cache) then [] else cache) ++ (us, sorted us) ∷ []

unfoldable pub endpoint_key :
    RoundRobinRouter → List EndpointInfo → Outcome (List String) × RoundRobinRouter
unfolding cached remember
endpoint_key r [] = (raise value_error, r)
endpoint_key r (e ∷ es) =
    let us : List String = dedup (urls (e ∷ es)) in
    elim (cached r.sorted_cache us) [
      | none ↦ (return (sorted us), record r { sorted_cache = remember r.sorted_cache us })
      | some key ↦ (return key, r)
    ]

-- The index table with the next index of the key, emptied first when it is full.
unfoldable pub advance : Dict (List String) ℕ → List String → Dict (List String) ℕ
advance table key =
    Dict.put (if leb max_cache_size (length table) && not (Dict.has table key) then [] else table)
      key (Dict.get_or table key 0 + 1)

unfoldable pub rotate : RoundRobinRouter → List String → Outcome String × RoundRobinRouter
unfolding advance
rotate r key =
    (pick key (Dict.get_or r.next_index key 0), record r { next_index = advance r.next_index key })

unfoldable pub route_key :
    Outcome (List String) × RoundRobinRouter → Outcome String × RoundRobinRouter
unfolding rotate
route_key (return key, r) = rotate r key
route_key (raise e, r) = (raise e, r)

unfoldable pub route_request :
    RoundRobinRouter → List EndpointInfo → Outcome String × RoundRobinRouter
unfolding route_key endpoint_key pick
route_request r endpoints = route_key (endpoint_key r endpoints)
