-- ===== src/Keystone/Allowed/AnyOrder.antt =====
-- Go visits a map in a random order. The answers of the permission maps do not depend on it.
use mathlib.Core.Bool.{Bool-set}
use mathlib.Core.Logic.{∥∥₁_elim}
use mathlib.Core.List.{Perm, Permᴰ}
use cpo.Base.{
  ◌≡◌, refl, sym, ◌∙◌, ap, Bool, Option, List, [], ◌∷◌, Str, arith, any, nat_eq, list_eq,
}
use cpo.Sets.{StringSet}
use cpo.Keystone.Policy.{Assoc, Attributes}
use cpo.Keystone.Allowed.Permissions.{entry_allowed, resource_permission_allowed}

any-permᴰ {ℓ} : {A : Type ℓ} (p : A → Bool) {xs ys : List A} → Permᴰ xs ys → any p xs ≡ any p ys
any-permᴰ p Permᴰ.nil = refl
any-permᴰ p (Permᴰ.cons e h) = ground (arith, ap p e, any-permᴰ p h)
any-permᴰ p (Permᴰ.swap e f) = ground (arith, ap p e, ap p f)
any-permᴰ p (Permᴰ.trans h k) = any-permᴰ p h ∙ any-permᴰ p k

any-perm {ℓ} : {A : Type ℓ} (p : A → Bool) {xs ys : List A} → Perm xs ys → any p xs ≡ any p ys
any-perm p h = ∥∥₁_elim h (Bool-set _ _) (any-permᴰ p)

module _ (S : StringSet) (unmarshal : Str → Option (List Str)) (attr : Attributes) where
  abbrev entry : Str × List Str → Bool
  entry (key, value) = entry_allowed S unmarshal key value attr

  resource-any : (spec : Assoc) → resource_permission_allowed S unmarshal spec attr ≡ any entry spec
  unfolding resource_permission_allowed
  resource-any [] = refl
  resource-any ((key, value) ∷ spec) = ground (arith, resource-any spec)

  -- Two visits of a permission map, in any orders, give the same answer.
  pub resource_permission_allowed-perm :
      (spec spec' : Assoc)
      → Perm spec spec'
      → resource_permission_allowed S unmarshal spec attr
        ≡ resource_permission_allowed S unmarshal spec' attr
  resource_permission_allowed-perm spec spec' h =
      resource-any spec ∙ any-perm entry h ∙ sym (resource-any spec')
