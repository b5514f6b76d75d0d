-- ===== src/Base/Text.antt =====
-- The order of Python's `sorted` on texts: by code point, a prefix first.
use Prim.Native.Char.{Char, code}
use text.Mathlib.TextEquality.{Char-path}
use production_stack.Base.Names.{
  String, ◌≡◌, refl, Bool, true, false, Option, none, some, List, [], ◌∷◌, arith,
}
use production_stack.Base.Tests.{ltb, nat_beq, if◌then◌else◌}

abbrev pub str_leb : String → String → Bool
str_leb String.[] t = true
str_leb (String.◌∷◌ c s) String.[] = false
str_leb (String.◌∷◌ c s) (String.◌∷◌ d t) =
    if ltb (code c) (code d) then true else if nat_beq (code c) (code d) then str_leb s t else false

pub str_leb_refl : (s : String) → str_leb s s ≡ true
str_leb_refl String.[] = refl
str_leb_refl (String.◌∷◌ c s) = ground (arith, str_leb_refl s)

pub str_leb_total : (s t : String) → str_leb s t ≡ false → str_leb t s ≡ true
str_leb_total String.[] t h = ground arith
str_leb_total (String.◌∷◌ c s) String.[] h = refl
str_leb_total (String.◌∷◌ c s) (String.◌∷◌ d t) h = ground (arith, str_leb_total s t)

pub str_leb_trans : (s t u : String) → str_leb s t ≡ true → str_leb t u ≡ true → str_leb s u ≡ true
str_leb_trans String.[] t u h k = refl
str_leb_trans (String.◌∷◌ c s) String.[] u h k = ground arith
str_leb_trans (String.◌∷◌ c s) (String.◌∷◌ d t) String.[] h k = ground arith
str_leb_trans (String.◌∷◌ c s) (String.◌∷◌ d t) (String.◌∷◌ e u) h k =
    ground (arith, str_leb_trans s t u)

cons_eq : (c d : Char) (s t : String) → c ≡ d → s ≡ t → String.◌∷◌ c s ≡ String.◌∷◌ d t
cons_eq c d s t p q = cc

pub str_leb_antisym : (s t : String) → str_leb s t ≡ true → str_leb t s ≡ true → s ≡ t
str_leb_antisym String.[] String.[] h k = refl
str_leb_antisym String.[] (String.◌∷◌ d t) h k = ground arith
str_leb_antisym (String.◌∷◌ c s) String.[] h k = ground arith
str_leb_antisym (String.◌∷◌ c s) (String.◌∷◌ d t) h k =
    cons_eq c d s t (Char-path c d same) (str_leb_antisym s t (ground arith) (ground arith))
  where
    same : code c ≡ code d
    same = ground arith

-- The rest of a text behind a prefix, if it has the prefix.
abbrev pub drop_prefix : String → String → Option String
drop_prefix String.[] t = some t
drop_prefix (String.◌∷◌ c p) String.[] = none
drop_prefix (String.◌∷◌ c p) (String.◌∷◌ d t) =
    if nat_beq (code c) (code d) then drop_prefix p t else none

-- What stands behind the first occurrence of a separator, if there is one.
unfoldable pub after_first : String → String → Option String
after_first sep String.[] = drop_prefix sep String.[]
after_first sep (String.◌∷◌ c t) = elim (drop_prefix sep (String.◌∷◌ c t)) [
  | none ↦ after_first sep t
  | some rest ↦ some rest
]

-- What stands before the first occurrence of a separator, or everything: t.split(sep)[0]
unfoldable pub before_first : String → String → String
before_first sep String.[] = String.[]
before_first sep (String.◌∷◌ c t) = elim (drop_prefix sep (String.◌∷◌ c t)) [
  | none ↦ String.◌∷◌ c (before_first sep t)
  | some rest ↦ String.[]
]

abbrev last_behind : String → String → Option String
last_behind sep String.[] = none
last_behind sep (String.◌∷◌ c t) = elim (last_behind sep t) [
  | none ↦ drop_prefix sep (String.◌∷◌ c t)
  | some rest ↦ some rest
]

-- What stands behind the last occurrence of a separator of one character, or everything:
-- t.split(sep)[-1]
abbrev pub after_last : String → String → String
after_last sep t = elim (last_behind sep t) [ none ↦ t | some rest ↦ rest ]

-- s + t
abbrev pub str_append : String → String → String
str_append String.[] t = t
str_append (String.◌∷◌ c s) t = String.◌∷◌ c (str_append s t)

-- sep.join(parts)
abbrev pub join : String → List String → String
join sep [] = ""
join sep (t ∷ []) = t
join sep (t ∷ u ∷ rest) = str_append t (str_append sep (join sep (u ∷ rest)))
