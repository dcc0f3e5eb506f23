-- ===== src/Result.antt =====
-- A Go pair `(value, error)`: the value where the error is nil.
use reptile.Prelude.{◌≡◌, refl, ◌⊎◌, inl, inr, Option, none, some}

pub data Result {ℓ κ} (E : Type ℓ) (A : Type κ) : Type (ℓ ⊔ κ) where
  err : E → Result E A
  ok : A → Result E A

module _ {ℓ κ μ} {E : Type ℓ} {A : Type κ} {B : Type μ} where
  infixl 5 ◌>>=◌ ◌>>◌
  abbrev pub ◌>>=◌ : Result E A → (A → Result E B) → Result E B
  err e >>= k = err e
  ok a >>= k = k a

  abbrev pub ◌>>◌ : Result E A → Result E B → Result E B
  m >> k = m >>= λ _. k

  -- Where a chain succeeds its first part did, with a value from which the rest succeeds.
  pub bind-eq-ok :
      {b : B} (first : Result E A) (rest : A → Result E B)
      → (first >>= rest) ≡ ok b
      → (seen : A) × (first ≡ ok seen) × (rest seen ≡ ok b)
  bind-eq-ok (err e) rest h = cc
  bind-eq-ok (ok seen) rest h = (seen, refl, h)

module _ {ℓ κ μ} {E : Type ℓ} {A : Type κ} {F : Type μ} where
  -- `fmt.Errorf("...: %w", err)`: the error gets a context.
  abbrev pub wrap : (E → F) → Result E A → Result F A
  wrap f (ok a) = ok a
  wrap f (err e) = err (f e)

  -- Only the error is looked at: `if _, err := ...; err != nil`.
  abbrev pub check : (E → F) → Result E A → Result F (Unit {0})
  check f (ok a) = ok tt
  check f (err e) = err (f e)

-- A check that returns early with an error, or falls through.
abbrev pub guard {ℓ} : {E : Type ℓ} → Option E → Result E (Unit {0})
guard none = ok tt
guard (some e) = err e

pub Result-cases {ℓ κ} :
    {E : Type ℓ} {A : Type κ} (m : Result E A) → ((e : E) × (m ≡ err e)) ⊎ ((a : A) × (m ≡ ok a))
Result-cases (ok a) = inr (a, refl)
Result-cases (err e) = inl (e, refl)

-- Inversion of a chain of checks.
pub >>-eq-ok {ℓ} :
    {E : Type ℓ} (m k : Result E (Unit {0})) → m >> k ≡ ok tt → (m ≡ ok tt) × (k ≡ ok tt)
>>-eq-ok (ok tt) k h = (refl, h)
>>-eq-ok (err e) k h = (cc, cc)

pub guard-eq-ok {ℓ} : {E : Type ℓ} (o : Option E) → guard o ≡ ok tt → o ≡ none
guard-eq-ok none h = refl
guard-eq-ok (some e) h = cc

pub wrap-eq-ok {ℓ κ μ} :
    {E : Type ℓ} {A : Type κ} {F : Type μ} (f : E → F) (m : Result E A) {a : A}
    → wrap f m ≡ ok a
    → m ≡ ok a
wrap-eq-ok f (ok b) h = cc
wrap-eq-ok f (err e) h = cc
