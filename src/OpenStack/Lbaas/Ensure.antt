-- ===== src/OpenStack/Lbaas/Ensure.antt =====
-- openstack_loadbalancer.go: `GetLoadBalancer`, `createLoadBalancer` and `EnsureLoadBalancer`.
pub mod SubnetKept
pub mod Plans
pub mod Refusals
use cpo.Base.{
  ℕ, zero, ◌==◌, Bool, true, false, not, ◌&&◌, ◌||◌, Option, none, some, List, [], ◌∷◌, ◌++◌, Str,
  str, if◌then◌else◌, all, nat_eq, list_eq,
}
use cpo.Exec.{Result, ok, err, Exec, ◌>>=◌, ◌>>◌, pure, raise, lift}
use cpo.IpNets.{Networks}
use cpo.OpenStack.Lbaas.Subnets.{choose_subnet}
use cpo.OpenStack.Lbaas.Api.{
  Fault, failed, known, LoadBalancer, LoadBalancerOpts, FloatingIp, Listener, Balancer,
}
use cpo.OpenStack.Lbaas.Calls.{
  with_ports, Call, Lbaas, Method, call, seen, wrapped, if_found, of_known, known_errors,
}
use cpo.OpenStack.Lbaas.EnsureGroup.{ensure_security_group}
use cpo.OpenStack.Lbaas.FloatingIps.{ensure_floating_ip, ingress}
use cpo.OpenStack.Lbaas.Listeners.{Run, or_failed, ensure_ports, delete_listeners}
use cpo.OpenStack.Lbaas.Lookup.{
  get_floating_ip_by_port_id, get_loadbalancer_by_name, get_listeners_by_load_balancer_id,
  get_floating_network_id_for_lb,
}
use cpo.OpenStack.Lbaas.Members.{settled}
use cpo.OpenStack.Lbaas.Plans.{Plan, make_plan}
use cpo.OpenStack.Lbaas.Remove.{ensure_load_balancer_deleted}
use cpo.OpenStack.Lbaas.Services.{
  ServicePort, Service, Node, LbOpts, get_string_from_service_annotation,
  get_bool_from_service_annotation, get_load_balancer_name, node_address_for_lb, subnet_id, port_id,
  floating_network_id, internal_load_balancer,
}
use cpo.Sets.{StringSet}

abbrev lb_method_of : Str → Str
lb_method_of m = if m == [] then str "ROUND_ROBIN" else m

module _ (B : Balancer) (S : StringSet) (N : Networks) where
  -- `createLoadBalancer`
  unfoldable pub create_load_balancer :
      LbOpts → Service → Str → Str → Bool → Str → Call B LoadBalancer
  create_load_balancer opts service name cluster_name internal vip_port =
      seen (wrapped (str "error creating loadbalancer")) (
        B.create_load_balancer (record {
          name = name;
          description =
              str "Kubernetes external service "
              ++ service.namespace
              ++ str "/"
              ++ service.name
              ++ str " from cluster "
              ++ cluster_name;
          provider = opts.lb_provider;
          vip_port_id = vip_port;
          vip_subnet_id = if vip_port == [] then opts.subnet_id else [];
          vip_address = if internal then service.load_balancer_ip else [];
        }))

  -- The load balancer that is there, or a new one; then it is waited for.
  unfoldable pub found_or_new :
      LbOpts → Str → Service → Str → Bool → Option LoadBalancer → Call B LoadBalancer
  found_or_new opts cluster_name service name internal (some lb) = pure lb
  found_or_new opts cluster_name service name internal none =
      create_load_balancer opts service name cluster_name internal
        (get_string_from_service_annotation service port_id [])

  unfoldable pub ensure_active : LbOpts → Str → Service → Str → Bool → Call B LoadBalancer
  ensure_active opts cluster_name service name internal = do
    found ←
        seen (λ r. wrapped (str "error getting loadbalancer for Service") (if_found r))
          (get_loadbalancer_by_name B name (B.default_load_balancer_name service))
    lb ← found_or_new opts cluster_name service name internal found
    _ ← settled B lb.id (str "timeout when waiting for loadbalancer to be ACTIVE")
    pure lb

  -- Listeners, pools, members and monitors, and the removal of listeners that no port uses.
  unfoldable pub ensure_listeners :
      LbOpts → Service → List Node → Str → Plan → LoadBalancer → Call B (Unit {0})
  ensure_listeners opts service nodes name plan lb = do
    old_listeners ←
        seen (wrapped (str "error getting LB")) (get_listeners_by_load_balancer_id B lb.id)
    left ←
        ensure_ports B
          (record {
            service = service;
            name = name;
            load_balancer_id = lb.id;
            lb_method = lb_method_of opts.lb_method;
            persistence = plan.persistence;
            nodes = nodes;
            opts = opts;
          })
          0 old_listeners service.ports
    delete_listeners B lb.id left

  -- From the look at the load balancer up to the status.
  unfoldable pub ensure_planned :
      LbOpts → Str → Service → List Node → Plan → Call B (LoadBalancer × Str)
  ensure_planned opts cluster_name service nodes plan = do
    let name = get_load_balancer_name cluster_name service
    lb ← ensure_active opts cluster_name service name plan.internal
    _ ← ensure_listeners opts service nodes name plan lb
    ip ← ensure_floating_ip B cluster_name plan.floating_pool plan.internal service lb
    pure (lb, ingress ip lb)

  -- Up to the status, with the load balancer.
  unfoldable pub ensure_parts : LbOpts → Str → Service → List Node → Call B (LoadBalancer × Str)
  ensure_parts opts cluster_name service nodes =
      make_plan B N opts service >>= ensure_planned opts cluster_name service nodes

  -- An error of the security group is returned after an attempt to delete what was made.
  unfoldable pub or_clean_up : Str → Service → Method B (Unit {0}) → Method B (Unit {0})
  or_clean_up cluster_name service m l =
      let (r, l') = m l in
      elim r [
        | ok _ ↦ (ok tt, l')
        | err e ↦
            let (_, w) = ensure_load_balancer_deleted B S l'.opts cluster_name service l'.world in
            (err e, record l' { world = w })
      ]

  unfoldable pub ensure_groups : Str → Service → List Node → LoadBalancer → Method B (Unit {0})
  ensure_groups cluster_name service nodes lb l =
      (if l.opts.manage_security_groups
          then or_clean_up cluster_name service
              (ensure_security_group B S N cluster_name service nodes lb)
          else pure tt)
        l

  unfoldable pub ensure_with_ports : Str → Service → List Node → Method B Str
  ensure_with_ports cluster_name service nodes l =
      (do
        (lb, status) ← call B (ensure_parts l.opts cluster_name service nodes)
        _ ← ensure_groups cluster_name service nodes lb
        pure status)
        l

  -- `EnsureLoadBalancer`: the IP of the status. The status that it also returns beside an error of the
  -- security group is left out.
  unfoldable pub ensure_load_balancer : Str → Service → List Node → Method B Str
  ensure_load_balancer cluster_name service [] =
      raise (failed (str "there are no available nodes for LoadBalancer service"))
  ensure_load_balancer cluster_name service (node ∷ nodes) = do
    _ ← choose_subnet B service (node ∷ nodes)
    with_ports B service.ports (ensure_with_ports cluster_name service (node ∷ nodes))

  -- The address of the status: that of the floating IP of the port, where there is a port.
  unfoldable pub status_of : LoadBalancer → Call B Str
  status_of lb =
      if not (lb.vip_port_id == [])
      then (seen (wrapped (str "error getting floating ip for port"))
            (get_floating_ip_by_port_id B lb.vip_port_id)
          >>= λ ip. pure ip.floating_ip)
      else pure lb.vip_address

  unfoldable pub status_of_found : Option LoadBalancer → Call B (Option Str)
  status_of_found none = pure none
  status_of_found (some lb) = status_of lb >>= λ ip. pure (some ip)

  -- `GetLoadBalancer`: the IP of the status, or that there is no load balancer.
  unfoldable pub get_load_balancer : Str → Service → Call B (Option Str)
  get_load_balancer cluster_name service =
      seen if_found (
        get_loadbalancer_by_name B (get_load_balancer_name cluster_name service)
          (B.default_load_balancer_name service))
      >>= status_of_found
