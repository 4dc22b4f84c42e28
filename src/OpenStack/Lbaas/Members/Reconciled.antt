-- ===== src/OpenStack/Lbaas/Members/Reconciled.antt =====
-- `EnsureLoadBalancer` makes the members of a pool those that the nodes call for.
use mathlib.Core.List.{Perm}
use mathlib.Core.List.Perm
use mathlib.Core.Path.{subst}
use cpo.Base.{
  ℕ, ◌≡◌, refl, sym, ap, ◌∙◌, ◌&&◌, List, [], ◌==◌, arith, Str, any, all, nat_eq, list_eq,
}
use cpo.Exec.{Result, ok, err, ◌>>=◌, ok-injective}
use cpo.Exec.Post.{Post, bind-Post}
use cpo.OpenStack.Lbaas.Api.{Fault, missing, Member, Balancer}
use cpo.OpenStack.Lbaas.Calls.{wrapped-ok, or_empty}
use cpo.OpenStack.Lbaas.Members.{
  member_exists, Target, ensure_node_members, delete_members, list_members, ensure_members,
}
use cpo.OpenStack.Lbaas.Members.Kept.{kept-exists}
use cpo.OpenStack.Lbaas.Members.Laws.{MemberLaws}
use cpo.OpenStack.Lbaas.Members.Pairs.{PairsOnce, pairs_once-perm}
use cpo.OpenStack.Lbaas.Services.{Node}
use cpo.OpenStack.Lbaas.Members.Rounds.{has_address, ensure_node_members-Post}
use cpo.OpenStack.Lbaas.Members.Obsolete.{delete_members-Post}

or_empty-lists :
    (r : Result Fault (List Member)) (now : List Member)
    → ((l : List Member) → r ≡ ok l → Perm now l)
    → (r ≡ err missing → now ≡ [])
    → (l : List Member) → or_empty r ≡ ok l
    → Perm now l
or_empty-lists (ok k) now f g l h = f l h
or_empty-lists (err missing) now f g l h =
    subst (λ k. Perm now k) (ok-injective [] l h)
      (subst (λ k. Perm k []) (sym (g refl)) (Perm.refl []))
or_empty-lists (err _) now f g l h = cc

module _ (B : Balancer) (members : Str → B.cloud.State → List Member) (laws : MemberLaws B members)
    (t : Target) where
  -- What is listed is what the pool has; a pool that is not found has no members.
  list_members-Post :
      (s : B.cloud.State)
      → Post
          (list_members B t.pool_id)
          s
          (λ l s'. Perm (members t.pool_id s') l × (members t.pool_id s' ≡ members t.pool_id s))
  unfolding list_members
  list_members-Post s l h =
      let same = (laws.list_keeps t.pool_id t.pool_id).at s in
      let listed =
        or_empty-lists _ _ (laws.list_reads t.pool_id s) (laws.list_missing t.pool_id s) l
          (wrapped-ok _ _ l h) in
      (subst (λ k. Perm k l) (sym same) listed, same)

  -- The pool has a member with an address and a port exactly if the nodes call for it.
  abbrev Exact : List Node → B.cloud.State → Type 0
  Exact nodes s =
      (a : Str) (port : ℕ)
      → member_exists (members t.pool_id s) a port
        ≡ (port == t.node_port && any (has_address a) nodes)

  after_listing-Post :
      (nodes : List Node) (listed : List Member) (s : B.cloud.State)
      → PairsOnce listed
      → Perm (members t.pool_id s) listed
      → Post
          (ensure_node_members B t listed nodes >>= λ obsolete.
            delete_members B t.load_balancer_id t.pool_id obsolete)
          s
          (λ _. Exact nodes)
  after_listing-Post nodes listed s once p =
      bind-Post (ensure_node_members B t listed nodes)
        (λ obsolete. delete_members B t.load_balancer_id t.pool_id obsolete) s (λ _. Exact nodes)
        λ left k u h a port.
          let (all, (_, (kept, q, wanted, there)), same) =
            ensure_node_members-Post B members laws t nodes [] listed s
              (once, ([], p, refl, λ _ c. cc)) left k in
          kept-exists all t.node_port _ kept a port
            (delete_members-Post B members laws t kept left _ q u h) wanted there
          ∙ ap (λ c. port == t.node_port && c) (same a ∙ ground arith)

  -- After a call that ends well, the pool has a member with an address and a port exactly if the port is
  -- the node port of the service and the address is that of some node; before the call no two members
  -- of the pool had the same address and port.
  pub ensure_members-exact :
      (nodes : List Node) (s : B.cloud.State)
      → PairsOnce (members t.pool_id s)
      → (ensure_members B t nodes s).0 ≡ ok tt
      → (a : Str) (port : ℕ)
      → member_exists (members t.pool_id (ensure_members B t nodes s).1) a port
        ≡ (port == t.node_port && any (has_address a) nodes)
  unfolding ensure_members
  ensure_members-exact nodes s once =
      bind-Post (list_members B t.pool_id)
        (λ listed. ensure_node_members B t listed nodes >>= λ obsolete.
          delete_members B t.load_balancer_id t.pool_id obsolete)
        s (λ _. Exact nodes)
        (λ listed h.
          let (p, same) = list_members-Post s listed h in
          after_listing-Post nodes listed _
            (sym (pairs_once-perm (subst (λ l. Perm l listed) same p)) ∙ once) p)
        tt
