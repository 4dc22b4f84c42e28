-- ===== src/OpenStack/Lbaas/Remove.antt =====
-- openstack_loadbalancer.go: `EnsureLoadBalancerDeleted`.
pub mod Laws
pub mod Deleted
use cpo.Base.{
  ◌==◌, Bool, true, false, Option, none, some, List, [], ◌∷◌, ◌++◌, Str, str, if◌then◌else◌, nat_eq,
  list_eq,
}
use cpo.Exec.{◌>>=◌, pure, lift}
use cpo.OpenStack.Lbaas.Api.{LoadBalancer, Listener, Pool, Member, FloatingIp, Balancer}
use cpo.OpenStack.Lbaas.Calls.{Call, seen, wrapped, if_found, or_missing, or_empty}
use cpo.OpenStack.Lbaas.Groups.{ensure_security_group_deleted}
use cpo.OpenStack.Lbaas.Listeners.{flag}
use cpo.OpenStack.Lbaas.Lookup.{
  get_floating_ip_by_port_id, get_loadbalancer_by_name, get_listeners_by_load_balancer_id,
  get_pool_by_listener_id, get_members_by_pool_id,
}
use cpo.OpenStack.Lbaas.Members.{settled}
use cpo.OpenStack.Lbaas.Services.{Service, LbOpts, get_load_balancer_name, keep_floating_ip}
use cpo.OpenStack.Lbaas.Wait.{wait_deleted}
use cpo.Sets.{StringSet}

-- What is found before anything is deleted: `poolIDs` and `monitorIDs`.
abbrev pub Parts : Type 0
Parts = List Str × List Str

abbrev pub monitor_part : Str → List Str
monitor_part [] = []
monitor_part (c ∷ id) = (c ∷ id) ∷ []

abbrev pub add_parts : Parts → Option Pool → Parts
add_parts parts none = parts
add_parts parts (some pool) = (parts.0 ++ pool.id ∷ [], parts.1 ++ monitor_part pool.monitor_id)

module _ (B : Balancer) (S : StringSet) where
  unfoldable pub delete_found_ip : Option FloatingIp → Call B (Unit {0})
  delete_found_ip none = pure tt
  delete_found_ip (some floating_ip) = seen or_missing (B.delete_floating_ip floating_ip.id)

  unfoldable pub delete_floating_ip : Bool → Str → Call B (Unit {0})
  delete_floating_ip keep_floating_annotation vip_port_id =
      if keep_floating_annotation
      then pure tt
      else if vip_port_id == []
      then pure tt
      else (seen if_found (get_floating_ip_by_port_id B vip_port_id) >>= delete_found_ip)

  unfoldable pub find_parts : Str → Parts → List Listener → Call B Parts
  find_parts id parts [] = pure parts
  find_parts id parts (listener ∷ listeners) = do
    pool ←
        seen (λ r. wrapped (str "error getting pool for listener") (if_found r))
          (get_pool_by_listener_id B id listener.id)
    find_parts id (add_parts parts pool) listeners

  -- A deletion and the wait for it.
  unfoldable pub delete_and_settle : Str → Str → Call B (Unit {0}) → Call B (Unit {0})
  delete_and_settle id text deletion = seen or_missing deletion >>= λ _. settled B id text

  unfoldable pub delete_monitors : Str → List Str → Call B (Unit {0})
  delete_monitors id [] = pure tt
  delete_monitors id (monitor_id ∷ monitor_ids) =
      delete_and_settle id
        (str "timeout when waiting for loadbalancer to be ACTIVE after deleting monitor")
        (B.delete_monitor monitor_id)
      >>= λ _. delete_monitors id monitor_ids

  unfoldable pub delete_pool_members : Str → Str → List Member → Call B (Unit {0})
  delete_pool_members id pool_id [] = pure tt
  delete_pool_members id pool_id (member ∷ members) =
      delete_and_settle id
        (str "timeout when waiting for loadbalancer to be ACTIVE after deleting member")
        (B.delete_member pool_id member.id)
      >>= λ _. delete_pool_members id pool_id members

  unfoldable pub delete_pools : Str → List Str → Call B (Unit {0})
  delete_pools id [] = pure tt
  delete_pools id (pool_id ∷ pool_ids) = do
    members ←
        seen (λ r. wrapped (str "error getting pool members") (or_empty r))
          (get_members_by_pool_id B pool_id)
    _ ← delete_pool_members id pool_id members
    _ ←
        delete_and_settle id
          (str "timeout when waiting for loadbalancer to be ACTIVE after deleting pool")
          (B.delete_pool pool_id)
    delete_pools id pool_ids

  unfoldable pub delete_all_listeners : Str → List Listener → Call B (Unit {0})
  delete_all_listeners id [] = pure tt
  delete_all_listeners id (listener ∷ listeners) =
      delete_and_settle id
        (str "timeout when waiting for loadbalancer to be ACTIVE after deleting listener")
        (B.delete_listener listener.id)
      >>= λ _. delete_all_listeners id listeners

  -- Without Octavia: each part by itself, and then the load balancer.
  unfoldable pub delete_each : Str → Call B (Unit {0})
  delete_each id = do
    listeners ← seen (wrapped (str "error getting LB")) (get_listeners_by_load_balancer_id B id)
    (pool_ids, monitor_ids) ← find_parts id ([], []) listeners
    _ ← delete_monitors id monitor_ids
    _ ← delete_pools id pool_ids
    _ ← delete_all_listeners id listeners
    _ ← seen or_missing (B.delete_load_balancer id false)
    seen (wrapped (str "failed to delete loadbalancer")) (wait_deleted B id)

  unfoldable pub delete_load_balancer : Bool → Str → Call B (Unit {0})
  delete_load_balancer use_octavia id =
      if use_octavia
      then seen (wrapped (str "failed to delete loadbalancer")) (B.delete_load_balancer id true)
      else delete_each id

  unfoldable pub delete_found : LbOpts → Service → Option LoadBalancer → Call B (Unit {0})
  delete_found opts service none = pure tt
  delete_found opts service (some lb) = do
    keep ← lift (flag service keep_floating_ip)
    _ ← delete_floating_ip keep lb.vip_port_id
    _ ← delete_load_balancer opts.use_octavia lb.id
    if opts.manage_security_groups
        then seen (wrapped (str "failed to delete Security Group for loadbalancer service"))
            (ensure_security_group_deleted B S opts service)
        else pure tt

  unfoldable pub ensure_load_balancer_deleted : LbOpts → Str → Service → Call B (Unit {0})
  ensure_load_balancer_deleted opts cluster_name service =
      seen if_found (
        get_loadbalancer_by_name B (get_load_balancer_name cluster_name service)
          (B.default_load_balancer_name service))
      >>= delete_found opts service
