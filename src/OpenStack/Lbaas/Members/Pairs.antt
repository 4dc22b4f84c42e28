-- ===== src/OpenStack/Lbaas/Members/Pairs.antt =====
-- The addresses and ports of members, whatever their order.
use mathlib.Core.Bool.{Bool-set}
use mathlib.Core.List.{Perm, Permᴰ}
use mathlib.Core.Logic.{∥∥₁_elim}
use cpo.Base.{
  ◌≡◌, refl, sym, ap, ◌∙◌, Bool, true, not, ◌&&◌, ◌||◌, List, [], ◌∷◌, ◌++◌, ◌==◌, arith, any,
  nat_eq, list_eq, str_eq_iff, Bool-ext,
}
use cpo.OpenStack.Lbaas.Api.{Member}
use cpo.OpenStack.Lbaas.Members.{is_member}

-- No two entries of the list are related.
abbrev pub once : (Member → Member → Bool) → List Member → Bool
once r [] = true
once r (m ∷ ms) = not (any (r m) ms) && once r ms

-- The two members have the same address and port.
abbrev pub same_pair : Member → Member → Bool
same_pair m n = is_member m.address m.protocol_port n

abbrev pub PairsOnce : List Member → Type 0
PairsOnce ms = once same_pair ms ≡ true

-- The two members have the same address.
abbrev pub same_address : Member → Member → Bool
same_address m n = n.address == m.address

abbrev pub AddressesOnce : List Member → Type 0
AddressesOnce ms = once same_address ms ≡ true

is_member_comm :
    (m n : Member) → is_member m.address m.protocol_port n ≡ is_member n.address n.protocol_port m
is_member_comm m n = ground (arith, str_eq_iff m.address n.address, str_eq_iff n.address m.address)

module _ (p : Member → Bool) where
  any_permᴰ : {l r : List Member} → Permᴰ l r → any p l ≡ any p r
  any_permᴰ Permᴰ.nil = refl
  any_permᴰ (Permᴰ.cons e π) = λ i. p (e i) || any_permᴰ π i
  any_permᴰ (Permᴰ.swap e f) = ground (arith, ap p e, ap p f)
  any_permᴰ (Permᴰ.trans π ρ) = any_permᴰ π ∙ any_permᴰ ρ

  pub any-perm : {l r : List Member} → Perm l r → any p l ≡ any p r
  any-perm π = ∥∥₁_elim π (Bool-set _ _) any_permᴰ

  pub any-append : (l r : List Member) → any p (l ++ r) ≡ (any p l || any p r)
  any-append [] r = refl
  any-append (m ∷ l) r = ground (arith, any-append l r)

module _ (r : Member → Member → Bool) (comm : (m n : Member) → r m n ≡ r n m) where
  once_permᴰ : {l k : List Member} → Permᴰ l k → once r l ≡ once r k
  once_permᴰ Permᴰ.nil = refl
  once_permᴰ (Permᴰ.cons {a = a} {b = b} {l₁ = l} {l₂ = k} e π) =
      ap (λ m. once r (m ∷ l)) e ∙ ground (arith, any_permᴰ (r b) π, once_permᴰ π)
  once_permᴰ (Permᴰ.swap {a = a} {b = b} {a' = c} {b' = d} {l = l} e f) =
      ground (arith, comm a b) ∙ ap (λ m. once r (b ∷ m ∷ l)) e ∙ ap (λ m. once r (m ∷ d ∷ l)) f
  once_permᴰ (Permᴰ.trans π ρ) = once_permᴰ π ∙ once_permᴰ ρ

  once-perm : {l k : List Member} → Perm l k → once r l ≡ once r k
  once-perm π = ∥∥₁_elim π (Bool-set _ _) once_permᴰ

pub pairs_once-perm : {l k : List Member} → Perm l k → once same_pair l ≡ once same_pair k
pairs_once-perm π = once-perm same_pair is_member_comm π

same_address_comm : (m n : Member) → same_address m n ≡ same_address n m
same_address_comm m n =
    Bool-ext _ _
      (λ h. (str_eq_iff m.address n.address).1 (sym ((str_eq_iff n.address m.address).0 h)))
      (λ h. (str_eq_iff n.address m.address).1 (sym ((str_eq_iff m.address n.address).0 h)))

pub addresses_once-perm : {l k : List Member} → Perm l k → once same_address l ≡ once same_address k
addresses_once-perm π = once-perm same_address same_address_comm π
