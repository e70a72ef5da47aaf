-- ===== src/Base/Runs.antt =====
-- What a call of C code ends in: a value, undefined behaviour (a NULL or dangling pointer
-- followed, an access out of bounds, a division by zero), or a loop that has used up its fuel.
use mathlib.Core.Path.{◌≡◌, refl}
use mathlib.Core.Option.{Option, none, some}

pub data Outcome {ℓ} (A : Type ℓ) : Type ℓ where
  ok : A → Outcome A
  fault : Outcome A
  out_of_fuel : Outcome A

infixl 5 ◌>>=◌
abbrev pub ◌>>=◌ {ℓ κ} : {A : Type ℓ} {B : Type κ} → Outcome A → (A → Outcome B) → Outcome B
ok a >>= f = f a
fault >>= f = fault
out_of_fuel >>= f = out_of_fuel

-- A read through an index or a pointer: nothing there is a fault.
abbrev pub deref {ℓ} : {A : Type ℓ} → Option A → Outcome A
deref none = fault
deref (some a) = ok a

-- Total correctness: the call returns, and its value satisfies `P`.
abbrev pub Returns {ℓ} : {A : Type ℓ} → (A → Type 0) → Outcome A → Type 0
Returns P (ok a) = P a
Returns P fault = ⊥
Returns P out_of_fuel = ⊥

module _ {ℓ κ} {A : Type ℓ} {B : Type κ} where
  pub Returns-bind :
      {P : A → Type 0} (Q : B → Type 0) (m : Outcome A) (f : A → Outcome B)
      → Returns P m
      → ((a : A) → P a → Returns Q (f a))
      → Returns Q (m >>= f)
  Returns-bind Q (ok a) f p k = k a p
  Returns-bind Q fault f p k = absurd p
  Returns-bind Q out_of_fuel f p k = absurd p

module _ {ℓ} {A : Type ℓ} where
  pub Returns-imp :
      {P : A → Type 0} (Q : A → Type 0) (m : Outcome A)
      → Returns P m
      → ((a : A) → P a → Q a)
      → Returns Q m
  Returns-imp Q (ok a) p k = k a p
  Returns-imp Q fault p k = absurd p
  Returns-imp Q out_of_fuel p k = absurd p

  pub ok_of_Returns : {P : A → Type 0} (m : Outcome A) → Returns P m → (a : A) × (m ≡ ok a) × P a
  ok_of_Returns (ok a) p = (a, refl, p)
  ok_of_Returns fault p = absurd p
  ok_of_Returns out_of_fuel p = absurd p

-- What a chain that returns has run through: its first call returned, and the rest went on from
-- that value.
module _ {ℓ κ} {First : Type ℓ} {Last : Type κ} where
  pub chain-eq-ok :
      (call : Outcome First) (rest : First → Outcome Last) {last : Last}
      → (call >>= rest) ≡ ok last
      → (first : First) × (call ≡ ok first) × (rest first ≡ ok last)
  chain-eq-ok fault rest done = cc
  chain-eq-ok out_of_fuel rest done = cc
  chain-eq-ok (ok first) rest done = (first, refl, done)

pub deref-eq-ok {ℓ} : {A : Type ℓ} (o : Option A) {a : A} → deref o ≡ ok a → o ≡ some a
deref-eq-ok none h = cc
deref-eq-ok (some x) h = cc

module _ {ℓ} {A : Type ℓ} where
  -- As `Returns-imp`, with the equation that says what the run returned.
  pub Returns-imp_eq :
      {P : A → Type 0} (Q : A → Type 0) (m : Outcome A)
      → Returns P m
      → ((a : A) → m ≡ ok a → P a → Q a)
      → Returns Q m
  Returns-imp_eq Q (ok a) p k = k a refl p
  Returns-imp_eq Q fault p k = absurd p
  Returns-imp_eq Q out_of_fuel p k = absurd p
