-- ===== src/Base/Float.antt =====
-- Python's floats, as an interface: the program adds up whole numbers, divides, and compares the
-- quotients. Only the order is assumed to have laws; NaN is left out, and infinity is an absent
-- bound where the code starts a search with it.
use production_stack.Base.Names.{ℕ, ◌≡◌, ◌⊎◌, Bool, true, false}
use production_stack.Base.Int.{ℤ}

pub record Float : Type 1 where
  pub F : Type 0
  -- a < b
  pub flt : F → F → Bool
  -- a / b for whole numbers
  pub ratio : ℤ → ℕ → F
  pub fsub : F → F → F
  pub fmul : F → F → F
  pub fdiv : F → F → F
  pub fmax : F → F → F
  pub flt_irrefl : (a : F) → flt a a ≡ false
  pub flt_trans : (a b c : F) → flt a b ≡ true → flt b c ≡ true → flt a c ≡ true
  pub flt_cotrans : (a b c : F) → flt a c ≡ true → (flt a b ≡ true) ⊎ (flt b c ≡ true)
