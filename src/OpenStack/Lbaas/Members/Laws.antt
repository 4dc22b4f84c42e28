-- ===== src/OpenStack/Lbaas/Members/Laws.antt =====
-- What the load-balancing service promises about the members of its pools, and what the waits of
-- openstack_loadbalancer.go therefore leave as it is.
use mathlib.Core.List.{Perm}
use cpo.Base.{◌≡◌, refl, Bool, List, [], ◌∷◌, Str}
use cpo.Exec.{ok, err, Exec, pure}
use cpo.Exec.Keeps.{Keeps, bind-Keeps}
use cpo.OpenStack.Lbaas.Api.{Fault, missing, Member, MemberOpts, Backoff, Balancer}
use cpo.OpenStack.Lbaas.Calls.{seen, wrapped, or_missing}
use cpo.OpenStack.Lbaas.Lookup.{get_members_by_pool_id}
use cpo.OpenStack.Lbaas.Members.{settled}
use cpo.OpenStack.Lbaas.Wait.{poll, wait_active}

-- The members that each pool has in a state. A listing shows them all, in some order; a member that is
-- made or deleted is the only change; reading the load balancer and waiting change nothing.
pub record MemberLaws (B : Balancer) (members : Str → B.cloud.State → List Member) : Type 1 where
  pub list_reads :
      (pool : Str) (s : B.cloud.State) (l : List Member)
      → (get_members_by_pool_id B pool s).0 ≡ ok l
      → Perm (members pool s) l
  pub list_missing :
      (pool : Str) (s : B.cloud.State)
      → (get_members_by_pool_id B pool s).0 ≡ err missing
      → members pool s ≡ []
  pub list_keeps : (pool q : Str) → Keeps (members q) (get_members_by_pool_id B pool)
  pub create_adds :
      (pool : Str) (o : MemberOpts) (s : B.cloud.State) (m : Member)
      → (B.create_member pool o s).0 ≡ ok m
      → (m.address ≡ o.address)
        × (m.protocol_port ≡ o.protocol_port)
        × Perm (members pool (B.create_member pool o s).1) (m ∷ members pool s)
  pub delete_removes :
      (pool : Str) (s : B.cloud.State) (m : Member) (rest : List Member)
      → or_missing (B.delete_member pool m.id s).0 ≡ ok tt
      → Perm (members pool s) (m ∷ rest)
      → Perm (members pool (B.delete_member pool m.id s).1) rest
  pub get_keeps : (id q : Str) → Keeps (members q) (B.get_load_balancer id)
  pub backoff_keeps :
      {L : Type 0} (b : Backoff) (m : Exec Fault (B.cloud.State × L) Bool) (q : Str)
      → Keeps (λ (p : B.cloud.State × L). members q p.0) m
      → Keeps (λ (p : B.cloud.State × L). members q p.0) (B.exponential_backoff b m)

module _ (B : Balancer) (members : Str → B.cloud.State → List Member) (laws : MemberLaws B members)
    (q : Str) where
  poll-Keeps : (id : Str) → Keeps (λ (p : B.cloud.State × Str). members q p.0) (poll B id)
  unfolding poll
  poll-Keeps id = record { at = λ p. (laws.get_keeps id q).at p.0 }

  wait_active-Keeps : (id : Str) → Keeps (members q) (wait_active B id)
  unfolding wait_active
  wait_active-Keeps id = record {
    at = λ s. (laws.backoff_keeps _ (poll B id) q (poll-Keeps id)).at (s, []);
  }

  pub settled-Keeps : (id text : Str) → Keeps (members q) (settled B id text)
  unfolding settled
  settled-Keeps id text =
      bind-Keeps (seen (wrapped text) (wait_active B id)) (λ _. pure tt)
        (record { at = λ s. (wait_active-Keeps id).at s }) λ _. record { at = λ s. refl }
