-- ===== src/Base/Outcome.antt =====
-- `Result<T, E>` and the question mark.
use mathlib.Core.Path.{◌≡◌, refl, sym, ap, ◌∙◌}
use mathlib.Core.Bool.{Bool, true, false}
use mathlib.Core.Logic.{◌⊎◌, inl, inr}
use mathlib.Core.Option.{Option, none, some}

pub data Result {κ ℓ} (E : Type κ) (A : Type ℓ) : Type (κ ⊔ ℓ) where
  err : E → Result E A
  ok : A → Result E A

module _ {κ} {E : Type κ} where
  -- `if !test { return Err(reason) }`
  abbrev pub ensure : Bool → E → Result E (Unit {0})
  ensure false reason = err reason
  ensure true reason = ok tt

  -- `if test { return Err(reason) }`
  abbrev pub refuse : Bool → E → Result E (Unit {0})
  refuse false reason = ok tt
  refuse true reason = err reason

  -- `option.ok_or(reason)?` and `result.map_err(|_| reason)?`
  abbrev pub ok_or {ℓ} : {A : Type ℓ} → Option A → E → Result E A
  ok_or (some value) reason = ok value
  ok_or none reason = err reason

  infixl 5 ◌>>=◌ ◌>>◌
  -- An error ends the function.
  abbrev pub ◌>>=◌ {ℓ μ} : {A : Type ℓ} {B : Type μ} → Result E A → (A → Result E B) → Result E B
  err reason >>= next = err reason
  ok value >>= next = next value

  abbrev pub ◌>>◌ {μ} : {B : Type μ} → Result E (Unit {0}) → Result E B → Result E B
  check >> next = check >>= λ _. next

module _ {κ ℓ} {E : Type κ} {A : Type ℓ} where
  pub Result-cases :
      (outcome : Result E A) → ((a : A) × (outcome ≡ ok a)) ⊎ ((e : E) × (outcome ≡ err e))
  Result-cases (err reason) = inr (reason, refl)
  Result-cases (ok value) = inl (value, refl)

  -- The step before a success was one.
  pub >>=-eq-ok {μ} :
      {B : Type μ} (next : A → Result E B) (step : Result E A) {b : B}
      → (step >>= next) ≡ ok b
      → (a : A) × (step ≡ ok a) × (next a ≡ ok b)
  >>=-eq-ok next (err reason) done = cc
  >>=-eq-ok next (ok value) done = (value, refl, done)

pub ensure-ok {κ} :
    {E : Type κ} (test : Bool) (reason : E) (u : Unit {0}) → ensure test reason ≡ ok u → test ≡ true
ensure-ok true reason u passed = refl
ensure-ok false reason u passed = cc

-- What is in a success.
abbrev pub value_of {κ ℓ} : {E : Type κ} {A : Type ℓ} → Result E A → A → A
value_of (err reason) other = other
value_of (ok value) other = value

pub ok_injective {κ ℓ} :
    {E : Type κ} {A : Type ℓ} (a b : A) (r : Result E A) → r ≡ ok a → r ≡ ok b → a ≡ b
ok_injective a b r e f = ap (λ s. value_of s a) (sym e ∙ f)

-- A fact that follows from what comes behind a step that succeeded.
pub ok_after {κ ℓ μ ν} :
    {E : Type κ} {A : Type ℓ} {B : Type μ} (P : Type ν) {b : B} (step : Result E A)
    (next : A → Result E B)
    → ((a : A) → next a ≡ ok b → P)
    → (step >>= next) ≡ ok b
    → P
ok_after P (err reason) next k done = cc
ok_after P (ok value) next k done = k value done

-- The same, with the step's result at hand.
pub ok_step {κ ℓ μ ν} :
    {E : Type κ} {A : Type ℓ} {B : Type μ} (P : Type ν) {b : B} (step : Result E A)
    (next : A → Result E B)
    → ((a : A) → step ≡ ok a → next a ≡ ok b → P)
    → (step >>= next) ≡ ok b
    → P
ok_step P (err reason) next k done = cc
ok_step P (ok value) next k done = k value refl done

pub refuse-ok {κ} :
    {E : Type κ} (test : Bool) (reason : E) (u : Unit {0})
    → refuse test reason ≡ ok u
    → test ≡ false
refuse-ok false reason u passed = refl
refuse-ok true reason u passed = cc

pub ok_or-ok {κ ℓ} :
    {E : Type κ} {A : Type ℓ} (o : Option A) (reason : E) (a : A)
    → ok_or o reason ≡ ok a
    → o ≡ some a
ok_or-ok none reason a found = cc
ok_or-ok (some b) reason a found = ap (λ r. some (value_of r b)) found
