-- ===== src/OpenStack/Lbaas/Update/Left.antt =====
-- The members of a pool that `UpdateLoadBalancer` leaves.
use mathlib.Core.List.{Perm, perm_middle}
use mathlib.Core.List.Perm
use mathlib.Core.Path.{subst}
use cpo.Base.{
  ◌≡◌, refl, sym, inl, inr, Bool, true, false, ◌&&◌, ◌||◌, List, [], ◌∷◌, ◌++◌, ◌==◌, arith, Str,
  all, nat_eq, list_eq, str_eq_iff, Bool-cases, if◌then◌else◌,
}
use cpo.Exec.Post.{Post, bind-Post, pure-Post}
use cpo.Maps.{keys, has_key}
use cpo.OpenStack.Lbaas.Api.{Member, Balancer}
use cpo.OpenStack.Lbaas.Calls.{Call, seen, wrapped, wrapped-ok, or_missing}
use cpo.OpenStack.Lbaas.Members.{is_member, member_exists, settled, after_deleting_member}
use cpo.OpenStack.Lbaas.Members.Kept.{is_wanted}
use cpo.OpenStack.Lbaas.Members.Laws.{MemberLaws, settled-Keeps}
use cpo.OpenStack.Lbaas.Services.{ServicePort}
use cpo.OpenStack.Lbaas.Update.{Scope, remove_member, remove_members}
use cpo.OpenStack.Lbaas.Update.Entries.{entries}

module _ (B : Balancer) (members : Str → B.cloud.State → List Member) (laws : MemberLaws B members)
    (scope : Scope) (port : ServicePort) (pool : Str) where
  -- Of the listed members those stay that a node needs.
  abbrev pub stays : Member → Bool
  stays m = has_key scope.addrs m.address && m.protocol_port == port.node_port

  abbrev pub Left : List Member → List Member → B.cloud.State → Type 0
  Left made seen s =
      (left : List Member) × Perm (members pool s) (made ++ left)
      × (all (is_wanted (keys scope.addrs) port.node_port) left ≡ true)
      × ((a : Str)
          → has_key scope.addrs a ≡ true
          → member_exists seen a port.node_port ≡ true
          → member_exists left a port.node_port ≡ true)

  remove_member-Post :
      (made seen : List Member) (m : Member) (s : B.cloud.State)
      → Perm (members pool s) (made ++ m ∷ seen)
      → Post (remove_member B scope pool m) s (λ _ s'. Perm (members pool s') (made ++ seen))
  unfolding remove_member
  remove_member-Post made seen m s p =
      bind-Post (cpo.OpenStack.Lbaas.Calls.seen or_missing (B.delete_member pool m.id))
        (λ _. settled B scope.loadbalancer.id after_deleting_member) s
        (λ _ s'. Perm (members pool s') (made ++ seen))
        λ u e v h.
          subst (λ l. Perm l (made ++ seen))
            (sym (
              (settled-Keeps B members laws pool scope.loadbalancer.id after_deleting_member).at _))
            (laws.delete_removes pool s m (made ++ seen) e (Perm.trans p (perm_middle made seen)))

  -- A member that does not stay serves no address.
  gone-served :
      (m : Member)
      → stays m ≡ false
      → (a : Str) → has_key scope.addrs a ≡ true
      → (rest : Bool) → (is_member a port.node_port m || rest) ≡ true
      → rest ≡ true
  gone-served m f a key rest e = elim (Bool-cases (is_member a port.node_port m)) [
    | inl i ↦
        let k : has_key scope.addrs m.address ≡ true =
          subst (λ b. has_key scope.addrs b ≡ true)
            (sym ((str_eq_iff m.address a).0 (ground arith))) key in
        ground arith
    | inr i ↦ ground arith
  ]

  pub remove_members-Post :
      (made seen : List Member) (s : B.cloud.State)
      → Perm (members pool s) (made ++ seen)
      → Post (remove_members B scope port pool (entries seen)) s (λ _. Left made seen)
  unfolding remove_members
  remove_members-Post made [] s p = pure-Post tt s (λ _. Left made []) ([], p, refl, λ a h k. k)
  remove_members-Post made (m ∷ seen) s p = elim (Bool-cases (stays m)) [
    | inl t ↦
        rw (t, if◌then◌else◌)
          λ u h.
            let (left, q, wanted, there) =
              remove_members-Post (m ∷ made) seen s (Perm.trans p (perm_middle made seen)) u h in
            (
              m ∷ left,
              Perm.trans q (Perm.symm (perm_middle made left)),
              ground arith,
              λ a k e. elim (Bool-cases (is_member a port.node_port m)) [
                | inl i ↦ ground arith
                | inr i ↦ ground (arith, there a k (ground arith))
              ],
            )
    | inr f ↦
        rw (f, if◌then◌else◌)
          (bind-Post (remove_member B scope pool m)
            (λ _. remove_members B scope port pool (entries seen)) s (λ _. Left made (m ∷ seen))
            λ u h v k.
              let (left, q, wanted, there) =
                remove_members-Post made seen _ (remove_member-Post made seen m s p u h) v k in
              (left, q, wanted, λ a key e. there a key (gone-served m f a key _ e)))
  ]
