-- ===== src/Base/PyInt.antt =====
-- Python's `int(x)`: `none` stands for the TypeError or ValueError that it raises. Of the digits and
-- spaces beyond Latin-1 nothing is modelled: an HTTP header holds none of them.
use Prim.Native.Char.{code}
use mathlib.Core.List.{reverse}
use production_stack.Base.Names.{
  ℕ, ◌+◌, ◌-◌, ◌*◌, String, Bool, false, ◌&&◌, ◌||◌, Option, none, some, List, [], ◌∷◌,
}
use production_stack.Base.Tests.{leb, nat_beq, if◌then◌else◌}
use production_stack.Base.Int.{ℤ, pos, sub_ℕ}
use production_stack.Base.Json.{Json, null, bool, int, float, str, arr, obj}

abbrev pub codes : String → List ℕ
codes String.[] = []
codes (String.◌∷◌ c s) = code c ∷ codes s

abbrev is_space : ℕ → Bool
is_space c = (leb 9 c && leb c 13) || (leb 28 c && leb c 32) || nat_beq c 0x85 || nat_beq c 0xa0

abbrev is_digit : ℕ → Bool
is_digit c = leb b'0' c && leb c b'9'

unfoldable pub lstrip : List ℕ → List ℕ
lstrip [] = []
lstrip (c ∷ cs) = if is_space c then lstrip cs else c ∷ cs

unfoldable pub strip : List ℕ → List ℕ
unfolding lstrip
strip cs = reverse (lstrip (reverse (lstrip cs)))

-- Digits with single underscores between them; `after_digit` says what the last character was.
unfoldable pub read_digits : ℕ → Bool → List ℕ → Option ℕ
read_digits acc after_digit [] = if after_digit then some acc else none
read_digits acc after_digit (c ∷ cs) =
    let rest = read_digits (if is_digit c then acc * 10 + (c - b'0') else acc) (is_digit c) cs in
    if is_digit c || (nat_beq c b'_' && after_digit) then rest else none

abbrev negated : Option ℕ → Option ℤ
negated none = none
negated (some n) = some (sub_ℕ 0 n)

abbrev plain : Option ℕ → Option ℤ
plain none = none
plain (some n) = some (pos n)

unfoldable pub read_signed : List ℕ → Option ℤ
unfolding read_digits
read_signed [] = none
read_signed (c ∷ cs) =
    if nat_beq c b'-'
    then negated (read_digits 0 false cs)
    else if nat_beq c b'+'
    then plain (read_digits 0 false cs)
    else plain (read_digits 0 false (c ∷ cs))

unfoldable pub int_of_text : String → Option ℤ
unfolding strip read_signed
int_of_text s = read_signed (strip (codes s))

unfoldable pub int_of_json : Json → Option ℤ
unfolding int_of_text
int_of_json null = none
int_of_json (bool b) = some (if b then pos 1 else pos 0)
int_of_json (int z) = some z
int_of_json (float z exact) = some z
int_of_json (str s) = int_of_text s
int_of_json (arr xs) = none
int_of_json (obj fs) = none
