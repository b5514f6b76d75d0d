-- ===== src/Routing/Disaggregated/Turns.antt =====
-- The two rotations of the orchestrated router.
use production_stack.Base.Names.{
  ℕ, zero, suc, ◌+◌, ◌<◌, ◌%◌, String, ◌≡◌, refl, sym, ap, ◌∙◌, Bool, true, ◌&&◌, Option, none,
  some, List, [], ◌∷◌, arith,
}
use production_stack.Base.Eq.{◌==◌, string_eq, contains}
use production_stack.Base.Lists.{length, get_elem?, length-map, any}
use production_stack.Base.Text.{str_leb}
use production_stack.Base.Sort.{sort_by, contains-sort_by, length-sort_by}
use production_stack.Base.Outcome.{return}
use production_stack.Endpoint.{EndpointInfo, urls, url_leb}
use production_stack.Endpoint.Order.{urls-sort_by}
use production_stack.Routing.Rotation.{pick, or_index_error, pick-get_elem?, pick_covers}
use production_stack.Routing.Disaggregated.{
  OrchestratedRouter, label_in, with_label, take_turn, select_prefill_endpoint,
  select_decode_endpoint,
}

get_elem?-urls :
    (es : List EndpointInfo) (i : ℕ) (u : String)
    → get_elem? (urls es) i ≡ some u
    → (e : EndpointInfo) × (get_elem? es i ≡ some e) × (e.url ≡ u)
get_elem?-urls [] i u h = absurd (ground (arith, h))
get_elem?-urls (e ∷ es) zero u h = (e, refl, ground (arith, h))
get_elem?-urls (e ∷ es) (suc i) u h = get_elem?-urls es i u h

or_index_error-return {ℓ} :
    {A : Type ℓ} (o : Option A) (a : A) → or_index_error o ≡ return a → o ≡ some a
or_index_error-return none a h = absurd (ground (arith, h))
or_index_error-return (some b) a h = ap some (ground (arith, h))

-- Going round endpoints is going round their URLs.
pick-urls :
    (es : List EndpointInfo) (idx : ℕ) (u : String)
    → pick (urls es) idx ≡ return u
    → (e : EndpointInfo) × (pick es idx ≡ return e) × (e.url ≡ u)
unfolding pick
pick-urls [] idx u h = absurd (ground (arith, h))
pick-urls (x ∷ xs) idx u h =
    let found : get_elem? (urls (x ∷ xs)) (idx % length (x ∷ xs)) ≡ some u =
      or_index_error-return _ u (
        ap (λ (n : ℕ). or_index_error (get_elem? (urls (x ∷ xs)) (idx % suc n)))
          (sym (length-map (λ e. e.url) xs))
        ∙ h) in
    let (e, p, q) = get_elem?-urls (x ∷ xs) (idx % length (x ∷ xs)) u found in
    (e, ap or_index_error p, q)

length-urls : (es : List EndpointInfo) → length (urls es) ≡ length es
length-urls es = length-map (λ e. e.url) es

-- From any index, each URL of the list has its turn within `length` turns.
take_turn-covers :
    (e : EndpointInfo) (es : List EndpointInfo) (idx : ℕ) (u : String)
    → contains (urls (e ∷ es)) u ≡ true
    → (i : ℕ) × (i < length (e ∷ es))
      × ((chosen : EndpointInfo) × (take_turn (e ∷ es) (idx + i) ≡ return chosen)
          × (chosen.url ≡ u))
take_turn-covers e es idx u h =
    let ordered : List EndpointInfo = sort_by url_leb (e ∷ es) in
    let (i, l, p) = pick_covers (urls ordered) idx u (
      ap (λ l. contains l u) (urls-sort_by (e ∷ es))
      ∙ contains-sort_by str_leb (urls (e ∷ es)) u
      ∙ h) in
    (
      i,
      omega (arith, l, length-urls ordered, length-sort_by url_leb (e ∷ es)),
      pick-urls ordered (idx + i) u p,
    )

-- The router after `k` requests for the same engines.
unfoldable pub after_requests :
    ℕ → OrchestratedRouter → List EndpointInfo → List EndpointInfo → OrchestratedRouter
after_requests zero r ps ds = r
after_requests (suc k) r ps ds =
    after_requests k (select_decode_endpoint (select_prefill_endpoint r ps).1 ds).1 ps ds

after_requests-idx :
    (k : ℕ) (r : OrchestratedRouter) (p : EndpointInfo) (ps : List EndpointInfo) (d : EndpointInfo)
    (ds : List EndpointInfo)
    → ((after_requests k r (p ∷ ps) (d ∷ ds)).prefill_idx ≡ r.prefill_idx + k)
      × ((after_requests k r (p ∷ ps) (d ∷ ds)).decode_idx ≡ r.decode_idx + k)
unfolding after_requests select_decode_endpoint select_prefill_endpoint
after_requests-idx zero r p ps d ds = (omega arith, omega arith)
after_requests-idx (suc k) r p ps d ds =
    let (a, b) =
      after_requests-idx k
        (select_decode_endpoint (select_prefill_endpoint r (p ∷ ps)).1 (d ∷ ds)).1 p ps d ds in
    (omega (arith, a), omega (arith, b))

-- Fairness of both rotations: while the engines stay the same, whatever the indices are, every
-- prefill engine and every decode engine has its turn within as many requests as there are engines
-- of its kind, by URL.
pub select_endpoints_cover :
    (r : OrchestratedRouter) (p : EndpointInfo) (ps : List EndpointInfo) (d : EndpointInfo)
    (ds : List EndpointInfo) (u w : String)
    → contains (urls (p ∷ ps)) u ≡ true
    → contains (urls (d ∷ ds)) w ≡ true
    → ((i : ℕ) × (i < length (p ∷ ps))
        × ((e : EndpointInfo) × ((select_prefill_endpoint
                (after_requests i r (p ∷ ps) (d ∷ ds))
                (p ∷ ps)).0
              ≡ return e)
            × (e.url ≡ u)))
      × ((j : ℕ) × (j < length (d ∷ ds))
          × ((e : EndpointInfo) × ((select_decode_endpoint
                  (after_requests j r (p ∷ ps) (d ∷ ds))
                  (d ∷ ds)).0
                ≡ return e)
              × (e.url ≡ w)))
unfolding select_prefill_endpoint select_decode_endpoint
select_endpoints_cover r p ps d ds u w h k =
    let (i, l, (e, a, b)) = take_turn-covers p ps r.prefill_idx u h in
    let (j, l', (e', a', b')) = take_turn-covers d ds r.decode_idx w k in
    (
      (i, l, (e, ap (take_turn (p ∷ ps)) (after_requests-idx i r p ps d ds).0 ∙ a, b)),
      (j, l', (e', ap (take_turn (d ∷ ds)) (after_requests-idx j r p ps d ds).1 ∙ a', b')),
    )

get_elem?-url-mem :
    (es : List EndpointInfo) (i : ℕ) (e : EndpointInfo)
    → get_elem? es i ≡ some e
    → contains (urls es) e.url ≡ true
unfolding contains
get_elem?-url-mem [] i e h = absurd (ground (arith, h))
get_elem?-url-mem (x ∷ xs) zero e h =
    let same : x ≡ e = ground (arith, h) in
    ground (arith, string_eq.beq_iff x.url e.url, ap (λ (y : EndpointInfo). y.url) same)
get_elem?-url-mem (x ∷ xs) (suc i) e h = ground (arith, get_elem?-url-mem xs i e h)

-- A turn of a non-empty list is one of its engines, by URL.
pub take_turn-mem :
    (e : EndpointInfo) (es : List EndpointInfo) (idx : ℕ)
    → (chosen : EndpointInfo) × (take_turn (e ∷ es) idx ≡ return chosen)
      × (contains (urls (e ∷ es)) chosen.url ≡ true)
take_turn-mem e es idx =
    let ordered : List EndpointInfo = sort_by url_leb (e ∷ es) in
    let (x, p, q) = pick-get_elem? ordered idx (omega (arith, length-sort_by url_leb (e ∷ es))) in
    (
      x,
      p,
      sym (contains-sort_by str_leb (urls (e ∷ es)) x.url)
          ∙ sym (ap (λ l. contains l x.url) (urls-sort_by (e ∷ es)))
          ∙ get_elem?-url-mem ordered (idx % length ordered) x q,
    )

-- Some engine of the list has the URL and one of the labels.
abbrev pub labelled : List String → List EndpointInfo → String → Bool
labelled labels endpoints u = any (λ e. e.url == u && label_in labels e.model_label) endpoints

pub contains-with_label :
    (labels : List String) (endpoints : List EndpointInfo) (u : String)
    → contains (urls (with_label labels endpoints)) u ≡ labelled labels endpoints u
unfolding with_label contains
contains-with_label labels [] u = refl
contains-with_label labels (e ∷ es) u = ground (arith, contains-with_label labels es u)
