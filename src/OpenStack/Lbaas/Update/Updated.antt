-- ===== src/OpenStack/Lbaas/Update/Updated.antt =====
-- `UpdateLoadBalancer` makes the members of a pool those that the nodes call for.
use mathlib.Core.List.{Perm}
use mathlib.Core.Path.{subst}
use cpo.Base.{
  ℕ, ◌≡◌, refl, sym, ◌∙◌, Bool, ◌&&◌, List, [], ◌∷◌, ◌++◌, ◌==◌, arith, Str, str, all, nat_eq,
  list_eq,
}
use cpo.Exec.{ok, ◌>>=◌}
use cpo.Exec.Post.{Post, bind-Post}
use cpo.Maps.{keys, has_key}
use cpo.OpenStack.Lbaas.Api.{Member, Balancer}
use cpo.OpenStack.Lbaas.Calls.{seen, wrapped, wrapped-ok}
use cpo.OpenStack.Lbaas.Lookup.{get_members_by_pool_id}
use cpo.OpenStack.Lbaas.Members.{is_member, member_exists}
use cpo.OpenStack.Lbaas.Members.Kept.{kept-exists}
use cpo.OpenStack.Lbaas.Members.Laws.{MemberLaws}
use cpo.OpenStack.Lbaas.Members.Pairs.{AddressesOnce, addresses_once-perm, any-append}
use cpo.OpenStack.Lbaas.Services.{ServicePort}
use cpo.OpenStack.Lbaas.Update.{Scope, members_by_address, add_members, remove_members, update_pool}
use cpo.OpenStack.Lbaas.Update.Entries.{entries, Fresh-nil, members_by_address-entries}
use cpo.OpenStack.Lbaas.Update.Added.{wanted-more, After, add_members-Post}
use cpo.OpenStack.Lbaas.Update.Left.{remove_members-Post}

all-append : (p : Member → Bool) (l r : List Member) → all p (l ++ r) ≡ (all p l && all p r)
all-append p [] r = refl
all-append p (m ∷ l) r = ground (arith, all-append p l r)

module _ (B : Balancer) (members : Str → B.cloud.State → List Member) (laws : MemberLaws B members)
    (scope : Scope) (port : ServicePort) (pool : Str) where
  -- The pool has a member with an address and a port exactly if the nodes call for it.
  abbrev Exact : B.cloud.State → Type 0
  Exact s =
      (a : Str) (p : ℕ)
      → member_exists (members pool s) a p ≡ (p == port.node_port && has_key scope.addrs a)

  remove-Exact :
      (listed : List Member) (s : B.cloud.State)
      → After B members laws scope port pool listed [] scope.addrs s
      → Post (remove_members B scope port pool (entries listed)) s (λ _. Exact)
  remove-Exact listed s (done, (made, p, wanted, there), same) u h a q =
      let (left, perm, stayed, served) =
        remove_members-Post B members laws scope port pool made listed s p u h in
      kept-exists (keys scope.addrs) port.node_port _ (made ++ left) a q perm
        (all-append _ made left
          ∙ ground (
            arith,
            stayed,
            wanted-more done (keys scope.addrs) port.node_port made (λ b c. ground (arith, same b))
                wanted,
          ))
        (λ b k. ground (
          arith,
          any-append (is_member b port.node_port) made left,
          any-append (is_member b port.node_port) made listed,
          there b (same b ∙ ground arith),
          served b k,
        ))

  -- After a call that ends well, the pool has a member with an address and a port exactly if the port is
  -- the node port of the service and the address is that of some node; before the call no two members
  -- of the pool had the same address.
  pub update_pool-exact :
      (index : ℕ) (s : B.cloud.State)
      → AddressesOnce (members pool s)
      → (update_pool B scope index port pool s).0 ≡ ok tt
      → (a : Str) (p : ℕ)
      → member_exists (members pool (update_pool B scope index port pool s).1) a p
        ≡ (p == port.node_port && has_key scope.addrs a)
  unfolding update_pool
  update_pool-exact index s distinct =
      bind-Post (seen (wrapped (str "error getting pool members")) (get_members_by_pool_id B pool))
        (λ listed.
          add_members B scope index port pool (members_by_address [] listed) scope.addrs >>= λ _.
          remove_members B scope port pool (members_by_address [] listed))
        s (λ _. Exact)
        (λ listed h.
          let reads = laws.list_reads pool s listed (wrapped-ok _ _ listed h) in
          let same = (laws.list_keeps pool pool).at s in
          let e =
            members_by_address-entries [] listed (Fresh-nil listed)
              (sym (addresses_once-perm reads) ∙ distinct) in
          let now = (get_members_by_pool_id B pool s).1 in
          rw e (
            bind-Post (add_members B scope index port pool (entries listed) scope.addrs)
              (λ _. remove_members B scope port pool (entries listed)) now (λ _. Exact)
              (λ u k. remove-Exact listed _ (
                add_members-Post B members laws scope port pool listed index scope.addrs [] now
                  ([], subst (λ l. Perm l listed) (sym same) reads, refl, λ a c. cc) u k))))
        tt
