-- ===== src/Exec/Keeps.antt =====
-- Calls that leave an observation of the outside state as it is, whether they end well or not.
use mathlib.Core.Path.{◌≡◌, refl, ◌∙◌}
use cpo.Exec.{Result, ok, err, Exec, continue, ◌>>=◌}

-- The observation `obs` is the same after the call.
pub record Keeps {ℓ} {E S A X : Type ℓ} (obs : S → X) (m : Exec E S A) : Type ℓ where
  pub at : (s : S) → obs (m s).1 ≡ obs s

module _ {ℓ} {E S A B X : Type ℓ} {obs : S → X} where
  pub continue-Keeps :
      (r : Result E A) (f : A → Exec E S B) (s : S)
      → ((a : A) → Keeps obs (f a))
      → obs (continue r f s).1 ≡ obs s
  continue-Keeps (ok a) f s k = (k a).at s
  continue-Keeps (err e) f s k = refl

  pub bind-Keeps :
      (m : Exec E S A) (f : A → Exec E S B)
      → Keeps obs m
      → ((a : A) → Keeps obs (f a))
      → Keeps obs (m >>= f)
  bind-Keeps m f km kf = record { at = λ s. continue-Keeps (m s).0 f (m s).1 kf ∙ km.at s }
