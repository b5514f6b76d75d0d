-- ===== src/Base/Outcome.antt =====
-- What a Python call gives back: a value, or the exception that it raises.
use production_stack.Base.Names.{ℕ, String, ◌≡◌, refl, Bool, true, false, arith}

-- The exceptions that the modelled code raises or lets pass.
pub data Error : Type 0 where
  value_error key_error index_error attribute_error zero_division : Error
  http_exception : ℕ → String → Error
  -- raised by a backend, a network call or another library, named by its class
  other_error : String → Error

pub data Outcome {ℓ} (A : Type ℓ) : Type ℓ where
  return : A → Outcome A
  raise : Error → Outcome A

abbrev pub is_return {ℓ} : {A : Type ℓ} → Outcome A → Bool
is_return (return a) = true
is_return (raise e) = false

infixl 5 ◌>>=◌
abbrev pub ◌>>=◌ {ℓ κ} : {A : Type ℓ} {B : Type κ} → Outcome A → (A → Outcome B) → Outcome B
return a >>= f = f a
raise e >>= f = raise e

-- A sequence that returns has returned at each step.
pub bind-return {ℓ κ} :
    {A : Type ℓ} {B : Type κ} (o : Outcome A) (f : A → Outcome B) (b : B)
    → (o >>= f) ≡ return b
    → (a : A) × (o ≡ return a) × (f a ≡ return b)
bind-return (return a) f b h = (a, refl, h)
bind-return (raise e) f b h = absurd (ground (arith, h))
