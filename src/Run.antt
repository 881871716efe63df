-- ===== src/Run.antt =====
-- How the C code runs: a state that is passed on, and two ways not to return.
use wasm_nginx_module.Prelude.{◌≡◌, refl}

-- `fault` is undefined behaviour: an access outside its buffer, or through NULL. `out_of_fuel` is a
-- loop that was not given enough rounds; the theorems on loops show that it does not happen.
pub data Run (S A : Type 0) : Type 0 where
  ok : A → S → Run S A
  fault : Run S A
  out_of_fuel : Run S A

abbrev pub M : Type 0 → Type 0 → Type 0
M S A = S → Run S A

module _ {S A : Type 0} where
  abbrev pub pure : A → M S A
  pure = ok

  abbrev pub undefined : M S A
  undefined s = fault

module _ {S A B : Type 0} where
  abbrev pub and_then : Run S A → (A → M S B) → Run S B
  and_then (ok a s) k = k a s
  and_then fault k = fault
  and_then out_of_fuel k = out_of_fuel

  infixl 5 ◌>>=◌ ◌>>◌
  abbrev pub ◌>>=◌ : M S A → (A → M S B) → M S B
  m >>= k = λ s. and_then (m s) k

  abbrev pub ◌>>◌ : M S A → M S B → M S B
  m >> n = m >>= λ _. n

-- Sequencing is associative, here with a tail that is known to split in two.
pub and_then_split :
    {S A B C : Type 0} (r : Run S A) (k : A → M S C) (f : A → M S B) (g : B → M S C)
    → ((a : A) (s : S) → k a s ≡ and_then (f a s) g)
    → and_then r k ≡ and_then (and_then r f) g
and_then_split (ok a s) k f g h = h a s
and_then_split fault k f g h = refl
and_then_split out_of_fuel k f g h = refl

pub and_then_assoc :
    {S A B C : Type 0} (r : Run S A) (f : A → M S B) (g : B → M S C)
    → and_then (and_then r f) g ≡ and_then r (λ a s. and_then (f a s) g)
and_then_assoc (ok a s) f g = refl
and_then_assoc fault f g = refl
and_then_assoc out_of_fuel f g = refl

-- A run that returns, with a postcondition: it neither faults nor runs out of fuel.
pub data Returns {S A : Type 0} (P : A → S → Type 0) : Run S A → Type 0 where
  returns : {a : A} {s : S} → P a s → Returns P (ok a s)

module _ {S A : Type 0} {P : A → S → Type 0} where
  pub bind :
      {B : Type 0} {Q : B → S → Type 0} {r : Run S A} {k : A → M S B}
      → Returns P r
      → ((a : A) (s : S) → P a s → Returns Q (k a s))
      → Returns Q (and_then r k)
  bind (returns p) next = next _ _ p

  pub mono :
      {Q : A → S → Type 0} {r : Run S A}
      → Returns P r
      → ((a : A) (s : S) → P a s → Q a s)
      → Returns Q r
  mono (returns p) weaken = returns (weaken _ _ p)

  -- A run that returns is `ok` of a result that meets the postcondition.
  pub Returns-ok : {r : Run S A} → Returns P r → (a : A) × (s : S) × (r ≡ ok a s) × P a s
  Returns-ok (returns {a} {s} p) = (a, s, refl, p)

-- A run that had fuel enough, whether it returns or faults.
abbrev pub Ends : {S A : Type 0} → Run S A → Type 0
Ends (ok a s) = Unit
Ends fault = Unit
Ends out_of_fuel = ⊥

pub Ends-and_then :
    {S A B : Type 0} (r : Run S A) (k : A → M S B)
    → Ends r
    → ((a : A) (s : S) → Ends (k a s))
    → Ends (and_then r k)
Ends-and_then (ok a s) k h next = next a s
Ends-and_then fault k h next = tt
Ends-and_then out_of_fuel k h next = h

-- A postcondition of the runs that return; it says nothing of a run that does not.
abbrev pub IfOk : {S A : Type 0} → (A → S → Type 0) → Run S A → Type 0
IfOk P (ok a s) = P a s
IfOk P fault = Unit
IfOk P out_of_fuel = Unit

pub IfOk-and_then :
    {S A B : Type 0} (P : A → S → Type 0) (Q : B → S → Type 0) (r : Run S A) (k : A → M S B)
    → IfOk P r
    → ((a : A) (s : S) → P a s → IfOk Q (k a s))
    → IfOk Q (and_then r k)
IfOk-and_then P Q (ok a s) k h next = next a s h
IfOk-and_then P Q fault k h next = tt
IfOk-and_then P Q out_of_fuel k h next = tt
