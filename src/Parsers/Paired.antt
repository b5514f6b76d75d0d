-- ===== src/Parsers/Paired.antt =====
-- The lists of a YAML file stay paired through the texts that carry them.
use Prim.Native.Char.{Char, code}
use production_stack.Base.Text.{str_append, join}
use production_stack.Base.Names.{
  ℕ, String, ◌≡◌, refl, sym, ap, ◌∙◌, inl, inr, Bool, true, false, not, ◌&&◌, some, List, [], ◌∷◌,
  ◌++◌, arith,
}
use production_stack.Base.Tests.{nat_beq, Bool-cases}
use production_stack.Base.Lists.{length, is_empty, filter, all}
use production_stack.Base.Dict.{Dict}
use production_stack.Parsers.{
  prepend, split, parse_comma_separated_args, parse_static_urls, Details, or_none, repeated,
  backends_of, names_of, generate_static_backends, generate_static_models,
}

-- The separator is not in the text.
abbrev pub free : ℕ → String → Bool
free sep String.[] = true
free sep (String.◌∷◌ c t) = not (nat_beq (code c) sep) && free sep t

prepend-prepend :
    (c : Char) (t : String) (ts : List String)
    → prepend (String.◌∷◌ c "") (prepend t ts) ≡ prepend (String.◌∷◌ c t) ts
prepend-prepend c t [] = refl
prepend-prepend c t (u ∷ ts) = refl

split-nonempty : (sep : ℕ) (t : String) → (x : String) × (xs : List String) × (split sep t ≡ x ∷ xs)
unfolding split
split-nonempty sep String.[] = ("", [], refl)
split-nonempty sep (String.◌∷◌ c t) =
    let (x, xs, p) = split-nonempty sep t in
    elim (Bool-cases (nat_beq (code c) sep)) [
      | inl q ↦ ("", x ∷ xs, rw (q, p) refl)
      | inr q ↦ (String.◌∷◌ c x, xs, rw (q, p) refl)
    ]

split-append :
    (sep : ℕ) (t rest : String)
    → free sep t ≡ true
    → split sep (str_append t rest) ≡ prepend t (split sep rest)
unfolding split
split-append sep String.[] rest h = let (x, xs, p) = split-nonempty sep rest in rw p refl
split-append sep (String.◌∷◌ c t) rest h =
    let away : nat_beq (code c) sep ≡ false = ground (arith, h) in
    rw (away, split-append sep t rest (ground (arith, h))) (prepend-prepend c t (split sep rest))

append_empty : (t : String) → str_append t "" ≡ t
append_empty String.[] = refl
append_empty (String.◌∷◌ c t) = ap (String.◌∷◌ c) (append_empty t)

abbrev pub no_commas : List String → Bool
no_commas [] = true
no_commas (t ∷ ts) = free b',' t && no_commas ts

split-join :
    (t : String) (ts : List String)
    → no_commas (t ∷ ts) ≡ true
    → split b',' (join "," (t ∷ ts)) ≡ t ∷ ts
unfolding split
split-join t [] h =
    ap (split b',') (sym (append_empty t))
    ∙ split-append b',' t "" (ground (arith, h))
    ∙ (ap (λ (u : String). u ∷ []) (append_empty t))
split-join t (u ∷ ts) h =
    split-append b',' t (str_append "," (join "," (u ∷ ts))) (ground (arith, h))
    ∙ rw (split-join u ts (ground (arith, h))) (ap (λ (v : String). v ∷ u ∷ ts) (append_empty t))

-- Every backend with the model that it serves, in the order of the file.
abbrev with_name : String → List String → List (String × String)
with_name name [] = []
with_name name (backend ∷ backends) = (backend, name) ∷ with_name name backends

abbrev pub served : Dict String Details → List (String × String)
served [] = []
served ((name, details) ∷ rest) = with_name name (or_none details.static_backends) ++ served rest

abbrev pub firsts : List (String × String) → List String
firsts [] = []
firsts ((a, b) ∷ l) = a ∷ firsts l

abbrev pub seconds : List (String × String) → List String
seconds [] = []
seconds ((a, b) ∷ l) = b ∷ seconds l

backends_of-served : (models : Dict String Details) → backends_of models ≡ firsts (served models)
unfolding backends_of
backends_of-served [] = refl
backends_of-served ((name, details) ∷ rest) =
    ap (λ l. or_none details.static_backends ++ l) (backends_of-served rest)
    ∙ step (or_none details.static_backends)
  where
    step :
        (bs : List String)
        → (bs ++ firsts (served rest)) ≡ firsts (with_name name bs ++ served rest)
    step [] = refl
    step (b ∷ bs) = ap (◌∷◌ b) (step bs)

names_of-served : (models : Dict String Details) → names_of models ≡ seconds (served models)
unfolding names_of
names_of-served [] = refl
names_of-served ((name, details) ∷ rest) =
    ap (λ l. repeated name (length (or_none details.static_backends)) ++ l) (names_of-served rest)
    ∙ step (or_none details.static_backends)
  where
    step :
        (bs : List String)
        → (repeated name (length bs) ++ seconds (served rest))
          ≡ seconds (with_name name bs ++ served rest)
    step [] = refl
    step (b ∷ bs) = ap (◌∷◌ name) (step bs)

join_then_split :
    (xs : List String)
    → is_empty xs ≡ false
    → no_commas xs ≡ true
    → parse_comma_separated_args (some (join "," xs)) ≡ some xs
unfolding parse_comma_separated_args
join_then_split [] h c = absurd (ground (arith, h))
join_then_split (t ∷ ts) h c = ap some (split-join t ts c)

firsts-nonempty : (l : List (String × String)) → is_empty l ≡ false → is_empty (firsts l) ≡ false
firsts-nonempty [] k = k
firsts-nonempty (x ∷ l) k = refl

seconds-nonempty : (l : List (String × String)) → is_empty l ≡ false → is_empty (seconds l) ≡ false
seconds-nonempty [] k = k
seconds-nonempty (x ∷ l) k = refl

filter-all {ℓ} : {A : Type ℓ} (p : A → Bool) (xs : List A) → all p xs ≡ true → filter p xs ≡ xs
filter-all p [] h = refl
filter-all p (x ∷ xs) h =
    let kept : p x ≡ true = ground (arith, h) in
    rw kept (ap (◌∷◌ x) (filter-all p xs (ground (arith, h))))

join_then_urls :
    (validate_url : String → Bool) (xs : List String)
    → is_empty xs ≡ false
    → no_commas xs ≡ true
    → all validate_url xs ≡ true
    → parse_static_urls validate_url (join "," xs) ≡ xs
unfolding parse_static_urls
join_then_urls validate_url [] h c v = absurd (ground (arith, h))
join_then_urls validate_url (t ∷ ts) h c v =
    ap (filter validate_url) (split-join t ts c) ∙ filter-all validate_url (t ∷ ts) v

-- The models of a YAML file survive the texts that carry them: where the file has at least one
-- backend, every backend passes for an URL, and no comma stands in a backend or in the name of a
-- model that has one, the backends that parse_static_urls reads back and the models that
-- parse_comma_separated_args reads back are the two sides of the same list of pairs, one for each
-- model and each of its backends, in the order of the file.
pub generate_then_parse :
    (validate_url : String → Bool) (models : Dict String Details)
    → is_empty (served models) ≡ false
    → all validate_url (firsts (served models)) ≡ true
    → no_commas (firsts (served models)) ≡ true
    → no_commas (seconds (served models)) ≡ true
    → (parse_static_urls validate_url (generate_static_backends models) ≡ firsts (served models))
      × (parse_comma_separated_args (some (generate_static_models models))
          ≡ some (seconds (served models)))
unfolding generate_static_backends generate_static_models
generate_then_parse validate_url models h v b n = (
  rw (backends_of-served models) (
      join_then_urls validate_url (firsts (served models)) (firsts-nonempty (served models) h) b v),
  rw (names_of-served models)
      (join_then_split (seconds (served models)) (seconds-nonempty (served models) h) n),
)
