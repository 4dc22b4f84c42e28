-- ===== src/OpenStack/Lbaas/Members/Obsolete.antt =====
-- `EnsureLoadBalancer` deletes the obsolete members of a pool.
use mathlib.Core.List.{Perm, perm_middle, append-nil}
use mathlib.Core.List.Perm
use mathlib.Core.Path.{subst}
use cpo.Base.{sym, List, [], ◌∷◌, ◌++◌, Str, nat_eq, list_eq}
use cpo.Exec.Post.{Post, bind-Post, pure-Post}
use cpo.OpenStack.Lbaas.Api.{Member, Balancer}
use cpo.OpenStack.Lbaas.Calls.{seen, wrapped, wrapped-ok, or_missing}
use cpo.OpenStack.Lbaas.Members.{
  Target, settled, deleting_member, after_deleting_member, delete_member, delete_members,
}
use cpo.OpenStack.Lbaas.Members.Laws.{MemberLaws, settled-Keeps}

module _ (B : Balancer) (members : Str → B.cloud.State → List Member) (laws : MemberLaws B members)
    (t : Target) where
  delete_member-Post :
      (kept obsolete : List Member) (m : Member) (s : B.cloud.State)
      → Perm (members t.pool_id s) (kept ++ m ∷ obsolete)
      → Post
          (delete_member B t.load_balancer_id t.pool_id m)
          s
          (λ _ s'. Perm (members t.pool_id s') (kept ++ obsolete))
  unfolding delete_member
  delete_member-Post kept obsolete m s p =
      bind-Post
        (seen (λ r. wrapped deleting_member (or_missing r)) (B.delete_member t.pool_id m.id))
        (λ _. settled B t.load_balancer_id after_deleting_member) s
        (λ _ s'. Perm (members t.pool_id s') (kept ++ obsolete))
        λ u e v h.
          subst (λ l. Perm l (kept ++ obsolete))
            (sym (
              (settled-Keeps B members laws t.pool_id t.load_balancer_id after_deleting_member).at
                _))
            (laws.delete_removes t.pool_id s m (kept ++ obsolete) (wrapped-ok _ _ u e)
              (Perm.trans p (perm_middle kept obsolete)))

  pub delete_members-Post :
      (kept obsolete : List Member) (s : B.cloud.State)
      → Perm (members t.pool_id s) (kept ++ obsolete)
      → Post
          (delete_members B t.load_balancer_id t.pool_id obsolete)
          s
          (λ _ s'. Perm (members t.pool_id s') kept)
  unfolding delete_members
  delete_members-Post kept [] s p =
      pure-Post tt s (λ _ s'. Perm (members t.pool_id s') kept)
        (subst (λ l. Perm (members t.pool_id s) l) (append-nil kept) p)
  delete_members-Post kept (m ∷ obsolete) s p =
      bind-Post (delete_member B t.load_balancer_id t.pool_id m)
        (λ _. delete_members B t.load_balancer_id t.pool_id obsolete) s
        (λ _ s'. Perm (members t.pool_id s') kept)
        (λ u h. delete_members-Post kept obsolete _ (delete_member-Post kept obsolete m s p u h))
