-- ===== src/Base/Json.antt =====
-- JSON values as Python's `json.loads` gives them. Of a float only the whole part is kept, and whether
-- there is a fraction; the infinite ones and NaN, which `json.loads` accepts too, are left out.
use production_stack.Base.Names.{
  String, ◌≡◌, refl, Bool, true, false, not, ◌&&◌, Option, none, some, arith,
}
use production_stack.Base.Tests.{nat_beq, if◌then◌else◌}
use production_stack.Base.Eq.{◌==◌, string_eq}
use production_stack.Base.Int.{ℤ, pos, negsuc}

mutual
  pub data Json : Type 0 where
    null : Json
    bool : Bool → Json
    int : ℤ → Json
    -- the whole part, and whether that is all of it
    float : ℤ → Bool → Json
    str : String → Json
    arr : Items → Json
    obj : Fields → Json

  pub data Items : Type 0 where
    nil : Items
    cons : Json → Items → Items

  pub data Fields : Type 0 where
    end : Fields
    field : String → Json → Fields → Fields

-- d.get(k), where a present `null` is the same `None` as a missing key
unfoldable pub lookup : Fields → String → Option Json
lookup end k = none
lookup (field j v rest) k = if j == k then some v else lookup rest k

abbrev pub not_null : Option Json → Option Json
not_null (some null) = none
not_null o = o

-- k in d
unfoldable pub mentions : Fields → String → Bool
mentions end k = false
mentions (field j v rest) k = if j == k then true else mentions rest k

-- d[k] = v
unfoldable pub assign : Fields → String → Json → Fields
assign end k v = field k v end
assign (field j w rest) k v = if j == k then field j v rest else field j w (assign rest k v)

-- d.pop(k, None)
unfoldable pub without : Fields → String → Fields
without end k = end
without (field j w rest) k =
    let others = without rest k in if j == k then others else field j w others

abbrev is_zero : ℤ → Bool
is_zero (pos n) = nat_beq n 0
is_zero (negsuc n) = false

abbrev is_one : ℤ → Bool
is_one (pos n) = nat_beq n 1
is_one (negsuc n) = false

-- bool(v)
abbrev pub truthy : Json → Bool
truthy null = false
truthy (bool b) = b
truthy (int z) = not (is_zero z)
truthy (float z exact) = not (is_zero z && exact)
truthy (str String.[]) = false
truthy (str _) = true
truthy (arr nil) = false
truthy (arr _) = true
truthy (obj end) = false
truthy (obj _) = true

-- v == 1
abbrev pub equals_one : Json → Bool
equals_one (bool b) = b
equals_one (int z) = is_one z
equals_one (float z exact) = is_one z && exact
equals_one _ = false

pub lookup-assign :
    (fs : Fields) (k : String) (v : Json) (j : String)
    → lookup (assign fs k v) j ≡ (if k == j then some v else lookup fs j)
unfolding lookup assign
lookup-assign end k v j = refl
lookup-assign (field i w rest) k v j = ground (
  arith,
  string_eq.beq_iff i k,
  string_eq.beq_iff i j,
  string_eq.beq_iff k j,
  lookup-assign rest k v j,
)

pub lookup-without :
    (fs : Fields) (k j : String) → lookup (without fs k) j ≡ (if k == j then none else lookup fs j)
unfolding lookup without
lookup-without end k j = ground arith
lookup-without (field i w rest) k j = ground (
  arith,
  string_eq.beq_iff i k,
  string_eq.beq_iff i j,
  string_eq.beq_iff k j,
  lookup-without rest k j,
)

pub lookup-assign_self : (fs : Fields) (k : String) (v : Json) → lookup (assign fs k v) k ≡ some v
lookup-assign_self fs k v = ground (arith, lookup-assign fs k v k, string_eq.beq_iff k k)

pub mentions-lookup :
    (fs : Fields) (k : String) → mentions fs k ≡ elim (lookup fs k) [ none ↦ false | some v ↦ true ]
unfolding mentions lookup
mentions-lookup end k = refl
mentions-lookup (field j v rest) k = ground (arith, mentions-lookup rest k)
