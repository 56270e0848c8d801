-- ===== src/Debug/Outcome.antt =====
-- The outcome of a check: the macro `check` returns 0 from the function around it, which is
-- `rejected`. `fault` is a read outside an array, which C does not define.
use primemover.Prelude.{Bool, true, false, ◌≡◌, refl, ◌≢◌, Option, none, some, arith, ◌⊎◌, inl, inr}

pub data Check {ℓ} (A : Type ℓ) : Type ℓ where
  ok : A → Check A
  rejected fault out_of_fuel : Check A

infixl 5 ◌>>=◌ ◌>>◌
abbrev pub ◌>>=◌ {ℓ κ} : {A : Type ℓ} {B : Type κ} → Check A → (A → Check B) → Check B
ok a >>= f = f a
rejected >>= f = rejected
fault >>= f = fault
out_of_fuel >>= f = out_of_fuel

abbrev pub ◌>>◌ {ℓ} : {B : Type ℓ} → Check (Unit {0}) → Check B → Check B
m >> k = m >>= λ _. k

abbrev pub check : Bool → Check (Unit {0})
check true = ok tt
check false = rejected

-- `if (b) m`
abbrev pub when : Bool → Check (Unit {0}) → Check (Unit {0})
when true m = m
when false m = ok tt

-- a read from an array
abbrev pub at {ℓ} : {A : Type ℓ} → Option A → Check A
at none = fault
at (some a) = ok a

module _ {ℓ κ} {A : Type ℓ} {B : Type κ} where
  pub >>=-eq-ok :
      {b : B} (m : Check A) (f : A → Check B) → m >>= f ≡ ok b → (a : A) × (m ≡ ok a) × (f a ≡ ok b)
  >>=-eq-ok rejected f h = cc
  >>=-eq-ok fault f h = cc
  >>=-eq-ok out_of_fuel f h = cc
  >>=-eq-ok (ok a) f h = (a, refl, h)

pub check-eq-ok : (b : Bool) → check b ≡ ok tt → b ≡ true
check-eq-ok true h = refl
check-eq-ok false h = cc

pub at-eq-ok {ℓ} : {A : Type ℓ} (o : Option A) {a : A} → at o ≡ ok a → o ≡ some a
at-eq-ok none h = cc
at-eq-ok (some b) h = ground arith

module _ {ℓ κ} {A : Type ℓ} {B : Type κ} where
  pub >>=-fuel :
      (m : Check A) (f : A → Check B)
      → m ≢ out_of_fuel
      → ((a : A) → f a ≢ out_of_fuel)
      → (m >>= f) ≢ out_of_fuel
  >>=-fuel (ok a) f h k = k a
  >>=-fuel rejected f h k = cc
  >>=-fuel fault f h k = cc
  >>=-fuel out_of_fuel f h k = absurd (h refl)

pub check-fuel : (b : Bool) → check b ≢ out_of_fuel
check-fuel true = cc
check-fuel false = cc

pub at-fuel {ℓ} : {A : Type ℓ} (o : Option A) → at o ≢ out_of_fuel
at-fuel none = cc
at-fuel (some a) = cc

pub Check-cases {ℓ} :
    {A : Type ℓ} (m : Check A)
    → ((a : A) × (m ≡ ok a)) ⊎ (m ≡ rejected) ⊎ (m ≡ fault) ⊎ (m ≡ out_of_fuel)
Check-cases (ok a) = inl (a, refl)
Check-cases rejected = inr (inl refl)
Check-cases fault = inr (inr (inl refl))
Check-cases out_of_fuel = inr (inr (inr refl))
