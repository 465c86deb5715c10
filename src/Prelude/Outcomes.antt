-- ===== src/Prelude/Outcomes.antt =====
-- What a run of a C++ function comes to.

-- `fault` is behaviour that the language leaves undefined (a read outside a buffer, a null pointer)
-- or a failed assert; `out_of_fuel` has no counterpart in the program: the bound on rounds is spent.
pub data Outcome {ℓ} (A : Type ℓ) : Type ℓ where
  ok : A → Outcome A
  fault out_of_fuel : Outcome A

infixl 5 ◌>>=◌
abbrev pub ◌>>=◌ {ℓ κ} : {A : Type ℓ} {B : Type κ} → Outcome A → (A → Outcome B) → Outcome B
ok a >>= f = f a
fault >>= f = fault
out_of_fuel >>= f = out_of_fuel
