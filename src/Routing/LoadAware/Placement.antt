-- ===== src/Routing/LoadAware/Placement.antt =====
-- The load-aware placement is the best-scored endpoint, the first one in the order of URLs.
use production_stack.Base.Names.{
  ℕ, String, ◌≡◌, sym, ap, ◌∙◌, Bool, true, some, List, ◌∷◌, inl, inr, arith,
}
use production_stack.Base.Eq.{string_eq, contains}
use production_stack.Base.Float.{Float}
use production_stack.Base.Text.{str_leb}
use production_stack.Base.Sort.{sort_by, contains-sort_by, length-sort_by}
use production_stack.Base.Dict.{Dict}
use production_stack.Endpoint.{EndpointInfo, urls, url_leb}
use production_stack.Endpoint.Order.{urls-sort_by, contains-middle}
use production_stack.Stats.Monitor.Report.{RequestStats}
use production_stack.Routing.Best.{IsOrder, IsFirstBest, first_best-nonempty}
use production_stack.Routing.LoadAware.{
  matched_tokens_by_url, relative_loads, score, url_of, select_url,
}

module _ (float : Float) where
  open float use {F, flt, flt_irrefl, flt_trans, flt_cotrans}

  abbrev pub higher : (EndpointInfo → F) → EndpointInfo → EndpointInfo → Bool
  higher value a b = flt (value b) (value a)

  higher-IsOrder : (value : EndpointInfo → F) → IsOrder (higher value)
  higher-IsOrder value = record {
    better_irrefl = λ a. flt_irrefl (value a);
    better_trans = λ a b c p q. flt_trans (value c) (value b) (value a) q p;
    better_cotrans = λ a b c p. elim (flt_cotrans (value c) (value b) (value a) p) [
      | inl q ↦ inr q
      | inr q ↦ inl q
    ];
  }

  -- With at least one endpoint, the placement is the URL of one of them: in the order of URLs the
  -- first whose score is above that of all endpoints before it, and not below that of any behind.
  pub select_url-IsFirstBest :
      (beta : F) (instances : Dict String String) (e : EndpointInfo) (es : List EndpointInfo)
      (stats : Dict String (RequestStats F)) (layout : Dict String ℕ) (prompt_tokens : ℕ)
      → let value =
          score float beta prompt_tokens
            (matched_tokens_by_url instances layout)
            (relative_loads float stats (e ∷ es)) in
        (best : EndpointInfo) × (select_url float beta instances (e ∷ es) stats layout prompt_tokens
          ≡ some best.url)
        × IsFirstBest (higher value) best (sort_by url_leb (e ∷ es))
        × (contains (urls (e ∷ es)) best.url ≡ true)
  unfolding select_url
  select_url-IsFirstBest beta instances e es stats layout prompt_tokens =
      let value : EndpointInfo → F =
        score float beta prompt_tokens (matched_tokens_by_url instances layout)
          (relative_loads float stats (e ∷ es)) in
      let sorted_endpoints : List EndpointInfo = sort_by url_leb (e ∷ es) in
      let (best, p, (pre, post, q, a, b)) =
        first_best-nonempty (higher value) (higher-IsOrder value) sorted_endpoints
          (omega (arith, length-sort_by url_leb (e ∷ es))) in
      (
        best,
        ap url_of p,
        (pre, post, q, a, b),
        sym (contains-sort_by str_leb (urls (e ∷ es)) best.url)
            ∙ sym (ap (λ l. contains l best.url) (urls-sort_by (e ∷ es)))
            ∙ contains-middle pre post best sorted_endpoints q,
      )
