-- ===== src/Stats/Engine/Scrapes.antt =====
-- What the scraper knows after a round, and how long it sleeps.
use production_stack.Base.Names.{
  ℕ, zero, suc, ◌+◌, ◌≤◌, ◌<◌, String, ◌≡◌, refl, sym, ap, ◌∙◌, ◌⊎◌, inl, inr, Bool, true, false,
  not, ◌&&◌, Option, none, some, List, [], ◌∷◌, arith,
}
use production_stack.Base.Tests.{if◌then◌else◌, Bool-cases, Option-cases}
use production_stack.Base.Eq.{◌==◌, string_eq, contains}
use production_stack.Base.Dict
use production_stack.Base.Dict.{Dict, get-put, get-del, has-get, contains-keys, Distinct-put}
use production_stack.Base.Lists.{Distinct}
use production_stack.Base.Float.{Float}
use production_stack.Endpoint.{EndpointInfo}
use production_stack.Stats.Engine.{
  EngineStats, Answers, scrape_one_endpoint, keep, collect, drop_missing, write_all, scrape_metrics,
  sleep_or_break,
}

module _ (float : Float) where
  open float use {F}

  -- The last of two answers that there is.
  abbrev or_else :
      Option (EngineStats float) → Option (EngineStats float) → Option (EngineStats float)
  or_else none before = before
  or_else (some s) before = some s

  -- The figures of the last request for an URL that succeeded in a round.
  abbrev pub last_answer :
      Answers float
      → ℕ
      → String
      → List EndpointInfo
      → Option (EngineStats float)
      → Option (EngineStats float)
  last_answer answers i url [] before = before
  last_answer answers i url (e ∷ es) before = last_answer answers (suc i) url es (
      if e.url == url then or_else (scrape_one_endpoint float (answers i e.url)) before else before)

  get-keep :
      (d : Dict String (EngineStats float)) (u : String) (s : Option (EngineStats float))
      (url : String)
      → Dict.get (keep float d u s) url
        ≡ (if u == url then or_else s (Dict.get d url) else Dict.get d url)
  get-keep d u none url = ground arith
  get-keep d u (some s) url = get-put d u s url

  get-collect :
      (answers : Answers float) (i : ℕ) (d : Dict String (EngineStats float))
      (es : List EndpointInfo) (url : String)
      → Dict.get (collect float answers i d es) url ≡ last_answer answers i url es (Dict.get d url)
  unfolding collect
  get-collect answers i d [] url = refl
  get-collect answers i d (e ∷ es) url =
      get-collect answers (suc i) (keep float d e.url (scrape_one_endpoint float (answers i e.url)))
        es url
      ∙ ap (last_answer answers (suc i) url es)
          (get-keep d e.url (scrape_one_endpoint float (answers i e.url)) url)

  get-drop_missing :
      (collected : Dict String (EngineStats float)) (old : List String)
      (stats : Dict String (EngineStats float)) (url : String)
      → Dict.get (drop_missing float collected old stats) url
        ≡ (if contains old url && not (Dict.has collected url) then none else Dict.get stats url)
  unfolding drop_missing contains
  get-drop_missing collected [] stats url = refl
  get-drop_missing collected (o ∷ old) stats url = elim (Bool-cases (Dict.has collected o)) [
    | inl p ↦ ground (arith, p, get-drop_missing collected old stats url, string_eq.beq_iff o url)
    | inr p ↦ ground (
      arith,
      p,
      get-drop_missing collected old (Dict.del stats o) url,
      get-del stats o url,
      string_eq.beq_iff o url,
    )
  ]

  get-write_all :
      (c stats : Dict String (EngineStats float)) (url : String)
      → Distinct (Dict.keys c)
      → Dict.get (write_all float c stats) url ≡ or_else (Dict.get c url) (Dict.get stats url)
  unfolding write_all Dict.get
  get-write_all [] stats url n = refl
  get-write_all ((u, s) ∷ c) stats url n = ground (
    arith,
    n,
    get-write_all c (Dict.put stats u s) url n.1,
    get-put stats u s url,
    has-get c url,
    contains-keys c url,
    string_eq.beq_iff u url,
  )

  collect-Distinct :
      (answers : Answers float) (i : ℕ) (d : Dict String (EngineStats float))
      (es : List EndpointInfo)
      → Distinct (Dict.keys d)
      → Distinct (Dict.keys (collect float answers i d es))
  unfolding collect
  collect-Distinct answers i d [] n = n
  collect-Distinct answers i d (e ∷ es) n =
      collect-Distinct answers (suc i)
        (keep float d e.url (scrape_one_endpoint float (answers i e.url))) es
        (kept (scrape_one_endpoint float (answers i e.url)))
    where
      kept : (s : Option (EngineStats float)) → Distinct (Dict.keys (keep float d e.url s))
      kept none = n
      kept (some s) = Distinct-put d e.url s n

  -- What was not collected has been dropped.
  settled :
      (c stats : Dict String (EngineStats float)) (url : String)
      → or_else (Dict.get c url) (Dict.get (drop_missing float c (Dict.keys stats) stats) url)
        ≡ Dict.get c url
  settled c stats url = elim (Option-cases (Dict.get c url)) [
    | inl p ↦ ground (
      arith,
      p,
      get-drop_missing c (Dict.keys stats) stats url,
      contains-keys stats url,
      has-get stats url,
      has-get c url,
    )
    | inr (s, p) ↦ rw p refl
  ]

  -- After a round, whatever the scraper knew before, what it knows of an URL are the figures of the last
  -- request of this round that succeeded there, and nothing if none did: an engine that has gone, or
  -- that does not answer, leaves no old figures behind.
  pub get-scrape_metrics :
      (answers : Answers float) (engine_stats : Dict String (EngineStats float))
      (endpoints : List EndpointInfo) (url : String)
      → Dict.get (scrape_metrics float answers engine_stats endpoints) url
        ≡ last_answer answers 0 url endpoints none
  unfolding scrape_metrics Dict.get
  get-scrape_metrics answers engine_stats endpoints url =
      let collected : Dict String (EngineStats float) = collect float answers 0 [] endpoints in
      let kept : Dict String (EngineStats float) =
        drop_missing float collected (Dict.keys engine_stats) engine_stats in
      get-write_all collected kept url (collect-Distinct answers 0 [] endpoints tt)
      ∙ settled collected engine_stats url
      ∙ get-collect answers 0 [] endpoints url

sleep_or_break-from :
    (rounds : ℕ) (running : ℕ → Bool) (i : ℕ)
    → let slept = sleep_or_break rounds running i in
      (i ≤ slept)
      × (slept ≤ i + rounds)
      × ((j : ℕ) → i ≤ j → j < slept → running j ≡ true)
      × ((slept ≡ i + rounds) ⊎ (running slept ≡ false))
unfolding sleep_or_break
sleep_or_break-from zero running i =
    (omega arith, omega arith, λ j a b. absurd (omega (arith, a, b)), inl (omega arith))
sleep_or_break-from (suc rounds) running i = elim (Bool-cases (running i)) [
  | inl p ↦
      let (low, high, up, stop) = sleep_or_break-from rounds running (suc i) in
      rw (p, sleep_or_break)
        ((
          omega (arith, low),
          omega (arith, high),
          λ j a b. elim (le_cases i j a) [
            | inl same ↦ ap running (sym same) ∙ p
            | inr later ↦ up j later b
          ],
          elim stop [ inl q ↦ inl (q ∙ omega arith) | inr q ↦ inr q ],
        ))
  | inr p ↦
      rw (p, sleep_or_break)
        ((omega arith, omega arith, λ j a b. absurd (omega (arith, a, b)), inr p))
]
  where
    le_cases : (a b : ℕ) → a ≤ b → (a ≡ b) ⊎ (suc a ≤ b)
    le_cases a b h = ground (arith, h)

-- The loop sleeps no longer than the interval, and not at all once the flag is seen down: it sleeps
-- while the flag is up, and ends early only where it is down.
pub sleep_or_break_bound :
    (interval : ℕ) (running : ℕ → Bool)
    → let slept = sleep_or_break interval running 0 in
      (slept ≤ interval)
      × ((j : ℕ) → j < slept → running j ≡ true)
      × ((slept ≡ interval) ⊎ (running slept ≡ false))
sleep_or_break_bound interval running =
    let (low, high, up, stop) = sleep_or_break-from interval running 0 in
    (
      omega (arith, high),
      λ j b. up j (omega arith) b,
      elim stop [ inl q ↦ inl (q ∙ omega arith) | inr q ↦ inr q ],
    )
