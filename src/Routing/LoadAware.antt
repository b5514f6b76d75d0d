-- ===== src/Routing/LoadAware.antt =====
-- The placement decision of `LoadAwareRouter` of src/vllm_router/routers/routing_logic.py:
-- `select_url` and what it calls. The LMCache controller's answer is an argument.
pub mod Placement
pub mod Route
use production_stack.Base.Names.{ℕ, ◌+◌, min, max, String, Bool, Option, none, some, List, [], ◌∷◌}
use production_stack.Base.Eq.{string_eq}
use production_stack.Base.Lists.{length}
use production_stack.Base.Int.{pos}
use production_stack.Base.Float.{Float}
use production_stack.Base.Text.{str_leb}
use production_stack.Base.Sort.{sort_by}
use production_stack.Base.Dict
use production_stack.Base.Dict.{Dict}
use production_stack.Endpoint.{EndpointInfo, url_leb}
use production_stack.Stats.Monitor.Report.{RequestStats}
use production_stack.Routing.Best.{first_best}

abbrev total : List ℕ → ℕ
total [] = 0
total (n ∷ ns) = n + total ns

-- {url: instance_id}, where the last instance of a URL wins
unfoldable pub url_to_instance : Dict String String → Dict String String → Dict String String
url_to_instance inverted [] = inverted
url_to_instance inverted ((iid, url) ∷ rest) = url_to_instance (Dict.put inverted url iid) rest

-- `layout_info` maps an instance to its matched tokens.
unfoldable pub matched_of : Dict String ℕ → Dict String ℕ → Dict String String → Dict String ℕ
matched_of layout_info matched [] = matched
matched_of layout_info matched ((url, iid) ∷ rest) =
    matched_of layout_info
      (elim (Dict.get layout_info iid) [ none ↦ matched | some n ↦ Dict.put matched url n ]) rest

unfoldable pub matched_tokens_by_url : Dict String String → Dict String ℕ → Dict String ℕ
unfolding url_to_instance matched_of
matched_tokens_by_url instance_id_to_ip layout_info =
    matched_of layout_info [] (url_to_instance [] instance_id_to_ip)

abbrev pub url_of : Option EndpointInfo → Option String
url_of none = none
url_of (some e) = some e.url

module _ (float : Float) where
  open float use {F, flt, ratio, fsub, fmul, fdiv, fmax}

  unfoldable pub load_penalty : Dict String (RequestStats F) → String → ℕ
  load_penalty request_stats url = elim (Dict.get request_stats url) [
    | none ↦ 0
    | some stats ↦ stats.in_prefill_requests + stats.in_decoding_requests
  ]

  -- {endpoint.url: load for endpoint in endpoints}
  unfoldable pub loads :
      Dict String (RequestStats F) → Dict String ℕ → List EndpointInfo → Dict String ℕ
  unfolding load_penalty
  loads request_stats d [] = d
  loads request_stats d (e ∷ es) =
      loads request_stats (Dict.put d e.url (load_penalty request_stats e.url)) es

  abbrev relative : F → ℕ → F
  relative mean load = fdiv (fsub (ratio (pos load) 1) mean) (fmax (ratio (pos 1) 1) mean)

  abbrev relative_all : F → Dict String ℕ → Dict String F
  relative_all mean [] = []
  relative_all mean ((url, load) ∷ rest) = (url, relative mean load) ∷ relative_all mean rest

  -- No endpoints give no loads, and no division.
  abbrev relative_to_mean : Dict String ℕ → Dict String F
  relative_to_mean [] = []
  relative_to_mean (x ∷ d) =
      relative_all (ratio (pos (total (Dict.values (x ∷ d)))) (length (x ∷ d))) (x ∷ d)

  unfoldable pub relative_loads : Dict String (RequestStats F) → List EndpointInfo → Dict String F
  unfolding loads
  relative_loads request_stats endpoints = relative_to_mean (loads request_stats [] endpoints)

  unfoldable pub score_endpoint : F → ℕ → ℕ → F → F
  score_endpoint beta matched_tokens prompt_tokens relative_load =
      fsub (ratio (pos (min matched_tokens prompt_tokens)) (max prompt_tokens 1))
        (fmul beta relative_load)

  -- The score of an endpoint, from the two tables.
  unfoldable pub score : F → ℕ → Dict String ℕ → Dict String F → EndpointInfo → F
  unfolding score_endpoint
  score beta prompt_tokens matched relative info =
      score_endpoint beta (Dict.get_or matched info.url 0) prompt_tokens
        (Dict.get_or relative info.url (ratio (pos 0) 1))

  -- The search from minus infinity takes the first endpoint at once, since a score is finite.
  unfoldable pub select_url :
      F
      → Dict String String
      → List EndpointInfo
      → Dict String (RequestStats F)
      → Dict String ℕ
      → ℕ
      → Option String
  unfolding matched_tokens_by_url relative_loads score
  select_url beta instance_id_to_ip endpoints request_stats layout_info prompt_tokens =
      let value =
        score beta prompt_tokens (matched_tokens_by_url instance_id_to_ip layout_info)
          (relative_loads request_stats endpoints) in
      url_of (first_best (λ a b. flt (value b) (value a)) (sort_by url_leb endpoints))
