-- ===== src/Examples/Data.antt =====
-- Floats as whole numbers, a small hash ring, engines, and a monitor with a request in flight.
use production_stack.Base.Names.{
  ℕ, ◌-◌, ◌*◌, ◌/◌, max, String, ◌≡◌, refl, ◌⊎◌, true, false, not, ◌&&◌, ◌||◌, Option, none, some,
  List, [], ◌∷◌, arith,
}
use production_stack.Base.Tests.{ltb, if◌then◌else◌}
use production_stack.Base.Eq.{◌==◌, string_eq, contains}
use production_stack.Base.Int.{pos_part}
use production_stack.Base.Float.{Float}
use production_stack.Endpoint.{EndpointInfo}
use production_stack.Routing.HashRing.{HashRing}

pub ltb_irrefl : (a : ℕ) → ltb a a ≡ false
ltb_irrefl a = ground arith

pub ltb_trans : (x y z : ℕ) → ltb x y ≡ true → ltb y z ≡ true → ltb x z ≡ true
ltb_trans x y z below above = ground (arith, below, above)

pub ltb_cotrans : (a b c : ℕ) → ltb a c ≡ true → (ltb a b ≡ true) ⊎ (ltb b c ≡ true)
ltb_cotrans a b c p = ground (arith, p)

abbrev pub whole : Float
whole = record {
  F = ℕ;
  flt = ltb;
  ratio = λ z n. pos_part z / n;
  fsub = ◌-◌;
  fmul = ◌*◌;
  fdiv = ◌/◌;
  fmax = max;
  flt_irrefl = ltb_irrefl;
  flt_trans = ltb_trans;
  flt_cotrans = ltb_cotrans;
}

unfoldable pub without : List String → String → List String
without [] n = []
without (x ∷ xs) n = let rest = without xs n in if n == x then rest else x ∷ rest

pub contains-without :
    (xs : List String) (n a : String) → contains (without xs n) a ≡ (not (n == a) && contains xs a)
unfolding without contains
contains-without [] n a = ground arith
contains-without (x ∷ xs) n a = ground (
  arith,
  contains-without xs n a,
  string_eq.beq_iff n x,
  string_eq.beq_iff x a,
  string_eq.beq_iff n a,
)

abbrev pub head? : List String → Option String
head? [] = none
head? (x ∷ xs) = some x

pub head-mem :
    (xs : List String) (a : String)
    → contains xs a ≡ true
    → (u : String) × (head? xs ≡ some u) × (contains xs u ≡ true)
unfolding contains
head-mem [] a h = absurd (ground (arith, h))
head-mem (x ∷ xs) a h = (x, refl, ground (arith, string_eq.beq_iff x x))

pub head-without :
    (xs : List String) (u n : String)
    → head? xs ≡ some u
    → (n == u) ≡ false
    → head? (without xs n) ≡ some u
unfolding without
head-without [] u n h k = absurd (ground (arith, h))
head-without (x ∷ xs) u n h k = ground (arith, h, k, string_eq.beq_iff n x, string_eq.beq_iff n u)

pub contains-none : (a : String) → contains [] a ≡ false
unfolding contains
contains-none a = refl

pub contains-cons : (r : List String) (n a : String) → contains (n ∷ r) a ≡ (n == a || contains r a)
unfolding contains
contains-cons r n a = refl

-- The node that was added last takes every key.
abbrev pub latest_node : HashRing
latest_node = record {
  Ring = List String;
  empty = [];
  get_nodes = λ r. r;
  add_node = λ r n. n ∷ r;
  remove_node = without;
  get_node = λ r key. head? r;
  contains-empty = contains-none;
  contains-add_node = contains-cons;
  contains-remove_node = contains-without;
  get_node-mem = λ r key a. head-mem r a;
  get_node-remove_node = λ r key u n. head-without r u n;
}

-- An engine that serves one model.
abbrev pub engine : String → EndpointInfo
engine u = record {
  url = u;
  model_names = "llama" ∷ [];
  id = u;
  added_timestamp = 0;
  model_label = none;
  sleep = false;
  healthy = true;
  pod_name = none;
  service_name = none;
  namespace = none;
  model_info = [];
}
