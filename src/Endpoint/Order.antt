-- ===== src/Endpoint/Order.antt =====
-- Endpoints sorted by their URLs, as four routers sort them.
use production_stack.Base.Names.{◌≡◌, refl, ap, ◌∙◌, inl, inr, true, List, [], ◌∷◌, ◌++◌, arith}
use production_stack.Base.Tests.{Bool-cases}
use production_stack.Base.Eq.{string_eq, contains}
use production_stack.Base.Lists.{map-append, contains-append}
use production_stack.Base.Text.{str_leb}
use production_stack.Base.Sort.{insert_sorted, sort_by}
use production_stack.Endpoint.{EndpointInfo, urls, url_leb}

-- Sorting endpoints by URL sorts the URLs.
urls-insert_sorted :
    (e : EndpointInfo) (es : List EndpointInfo)
    → urls (insert_sorted url_leb e es) ≡ insert_sorted str_leb e.url (urls es)
unfolding insert_sorted
urls-insert_sorted e [] = refl
urls-insert_sorted e (x ∷ xs) = elim (Bool-cases (str_leb e.url x.url)) [
  | inl p ↦ rw p
  | inr p ↦ rw p (ap (◌∷◌ x.url) (urls-insert_sorted e xs))
]

pub urls-sort_by : (es : List EndpointInfo) → urls (sort_by url_leb es) ≡ sort_by str_leb (urls es)
unfolding sort_by
urls-sort_by [] = refl
urls-sort_by (e ∷ es) =
    urls-insert_sorted e (sort_by url_leb es) ∙ ap (insert_sorted str_leb e.url) (urls-sort_by es)

pub contains-middle :
    (pre post : List EndpointInfo) (e : EndpointInfo) (xs : List EndpointInfo)
    → xs ≡ pre ++ e ∷ post
    → contains (urls xs) e.url ≡ true
unfolding contains
contains-middle pre post e xs p =
    ap (λ l. contains (urls l) e.url) p
    ∙ ap (λ l. contains l e.url) (map-append (λ x. x.url) pre (e ∷ post))
    ∙ contains-append (urls pre) (e.url ∷ urls post) e.url
    ∙ ground (arith, string_eq.beq_iff e.url e.url)
