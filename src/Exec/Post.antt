-- ===== src/Exec/Post.antt =====
-- What holds after a call that ends well.
use mathlib.Core.Path.{◌≡◌, refl, sym, subst}
use cpo.Base.{Bool, true, false, if◌then◌else◌}
use cpo.Exec.{Result, ok, err, Exec, continue, ◌>>=◌, pure, raise, continue-runs, ok-injective}

module _ {ℓ} {E S A : Type ℓ} where
  -- If the call from this state ends well, its value and the state that it leaves are as stated.
  abbrev pub Post : Exec E S A → S → (A → S → Type ℓ) → Type ℓ
  Post m s Q = (a : A) → (m s).0 ≡ ok a → Q a (m s).1

  pub pure-Post : (a : A) (s : S) (Q : A → S → Type ℓ) → Q a s → Post (pure a) s Q
  pure-Post a s Q q b h = subst (λ c. Q c s) (ok-injective a b h) q

  pub if-Post :
      (b : Bool) (m n : Exec E S A) (s : S) (Q : A → S → Type ℓ)
      → (b ≡ true → Post m s Q)
      → (b ≡ false → Post n s Q)
      → Post (if b then m else n) s Q
  if-Post true m n s Q p q = p refl
  if-Post false m n s Q p q = q refl

  pub raise-Post : (e : E) (s : S) (Q : A → S → Type ℓ) → Post (raise e) s Q
  raise-Post e s Q b h = cc

module _ {ℓ} {E S A B : Type ℓ} where
  pub bind-Post :
      (m : Exec E S A) (f : A → Exec E S B) (s : S) (Q : B → S → Type ℓ)
      → Post m s (λ a s'. Post (f a) s' Q)
      → Post (m >>= f) s Q
  bind-Post m f s Q post b h =
      let (a, e, run) = continue-runs (m s).0 f (m s).1 b h in
      let k : (f a (m s).1).0 ≡ ok b = rw run at h in
      subst (λ (x : Result E B × S). Q b x.1) (sym run) (post a e b k)

  -- A property of the state that the first call leaves, and the second call where it runs, holds in the end.
  continue-After :
      (r : Result E A) (f : A → Exec E S B) (s : S) (Q : S → Type ℓ)
      → Q s
      → ((a : A) → r ≡ ok a → Q (f a s).1)
      → Q (continue r f s).1
  continue-After (ok a) f s Q q k = k a refl
  continue-After (err e) f s Q q k = q

  pub bind-After :
      (m : Exec E S A) (f : A → Exec E S B) (s : S) (Q : S → Type ℓ)
      → Q (m s).1
      → Post m s (λ a s'. Q (f a s').1)
      → Q ((m >>= f) s).1
  bind-After m f s Q q k = continue-After (m s).0 f (m s).1 Q q k
