-- ===== src/Exec.antt =====
-- Go functions with an `error` result. A call returns a value or an error; a function that works on
-- outside state takes the state and gives it back, with what it changed before an error.
pub mod Keeps
pub mod Panics
pub mod Post
use mathlib.Core.Path.{◌≡◌, refl}
use mathlib.Core.Logic.{◌⊎◌, inl, inr}

pub data Result {ℓ} (E A : Type ℓ) : Type ℓ where
  ok : A → Result E A
  err : E → Result E A

pub ok-injective {ℓ} : {E A : Type ℓ} (a b : A) → ◌≡◌ {A = Result E A} (ok a) (ok b) → a ≡ b
ok-injective a b h = cc

pub Result-cases {ℓ} :
    {E A : Type ℓ} (r : Result E A) → ((e : E) × (r ≡ err e)) ⊎ ((a : A) × (r ≡ ok a))
Result-cases (ok a) = inr (a, refl)
Result-cases (err e) = inl (e, refl)

abbrev pub Exec {ℓ} : Type ℓ → Type ℓ → Type ℓ → Type ℓ
Exec E S A = S → Result E A × S

module _ {ℓ} {E S A : Type ℓ} where
  abbrev pub pure : A → Exec E S A
  pure a s = (ok a, s)

  abbrev pub raise : E → Exec E S A
  raise e s = (err e, s)

  abbrev pub lift : Result E A → Exec E S A
  lift r s = (r, s)

module _ {ℓ} {E S A B : Type ℓ} where
  abbrev pub continue : Result E A → (A → Exec E S B) → Exec E S B
  continue (ok a) f s = f a s
  continue (err e) f s = (err e, s)

  infixl 10 ◌>>=◌ ◌>>◌
  abbrev pub ◌>>=◌ : Exec E S A → (A → Exec E S B) → Exec E S B
  ◌>>=◌ m f s = let (r, s') = m s in continue r f s'

  abbrev pub ◌>>◌ : Exec E S A → Exec E S B → Exec E S B
  m >> n = m >>= λ _. n

module _ {ℓ} {E S A B : Type ℓ} where
  -- A chain that ends well has a first call that ends well.
  pub continue-eq-ok :
      (r : Result E A) (f : A → Exec E S B) (s : S) (b : B)
      → (continue r f s).0 ≡ ok b
      → (a : A) × (r ≡ ok a) × ((f a s).0 ≡ ok b)
  continue-eq-ok (ok a) f s b h = (a, refl, h)
  continue-eq-ok (err e) f s b h = cc

  -- It runs on with the value of the first call.
  pub continue-runs :
      (r : Result E A) (f : A → Exec E S B) (s : S) (b : B)
      → (continue r f s).0 ≡ ok b
      → (a : A) × (r ≡ ok a) × (continue r f s ≡ f a s)
  continue-runs (ok a) f s b h = (a, refl, refl)
  continue-runs (err e) f s b h = cc
