-- ===== src/Base/Exec.antt =====
-- Methods on `&mut self` that may fail: what was written before the error stays written.
use mathlib.Core.Path.{◌≡◌, sym, ◌∙◌}
use mathlib.Core.Bool.{Bool, true, false}
use mathlib.Core.Logic.{inl, inr}
use age_plugin_phone.Base.Outcome.{Result, ok, err, Result-cases, ok_injective}

abbrev pub Exec : Type 0 → Type 0 → Type 0 → Type 0
Exec S E A = S → Result E A × S

module _ {S E : Type 0} where
  abbrev pub continue : {A B : Type 0} → Result E A → (A → Exec S E B) → Exec S E B
  continue (ok a) f s = f a s
  continue (err e) f s = (err e, s)

  infixl 5 ◌>>=◌ ◌>>◌
  abbrev pub ◌>>=◌ : {A B : Type 0} → Exec S E A → (A → Exec S E B) → Exec S E B
  ◌>>=◌ m f s = continue (m s).0 f (m s).1

  abbrev pub ◌>>◌ : {B : Type 0} → Exec S E (Unit {0}) → Exec S E B → Exec S E B
  m >> k = m >>= λ _. k

  abbrev pub lift : {A : Type 0} → Result E A → Exec S E A
  lift r s = (r, s)

  abbrev pub modify : (S → S) → Exec S E (Unit {0})
  modify f s = (ok tt, f s)

  abbrev pub fail_if : (S → Bool) → E → Exec S E (Unit {0})
  fail_if test e s = (elim (test s) [ true ↦ err e | false ↦ ok tt ], s)

-- A step that ends in a result of its own: the step succeeded, and this is the result.
pub then_lift-ok :
    {S E A : Type 0} (m : Exec S E (Unit {0})) (a v : A) (s : S)
    → ((m >> lift (ok a)) s).0 ≡ ok v
    → ((m s).0 ≡ ok tt) × (a ≡ v)
then_lift-ok m a v s h = elim (Result-cases (m s).0) [
  | inl (u, e) ↦ (
    e,
    (let goes : ((m >> lift (ok a)) s).0 ≡ ok a = simp e in
        ok_injective a v ((m >> lift (ok a)) s).0 goes h),
  )
  | inr (e, k) ↦ (let fails : ((m >> lift (ok a)) s).0 ≡ err e = simp k in cc)
]

-- The first of two steps that succeed together.
pub >>=-ok :
    {S E A B : Type 0} (m : Exec S E A) (f : A → Exec S E B) (s : S) (b : B)
    → ((m >>= f) s).0 ≡ ok b
    → (a : A) × ((m s).0 ≡ ok a) × ((f a (m s).1).0 ≡ ok b)
>>=-ok m f s b h = elim (Result-cases (m s).0) [
  | inl (a, e) ↦ (a, e, (let goes : ((m >>= f) s).0 ≡ (f a (m s).1).0 = simp e in sym goes ∙ h))
  | inr (e, k) ↦ (let fails : ((m >>= f) s).0 ≡ err e = simp k in cc)
]
