-- ===== src/OpenStack/Lbaas/FloatingIps.antt =====
-- openstack_loadbalancer.go: the floating IP of a load balancer, in `EnsureLoadBalancer`.
use cpo.Base.{
  ◌==◌, Bool, not, ◌&&◌, Option, none, some, [], ◌∷◌, ◌++◌, Str, str, if◌then◌else◌, nat_eq,
  list_eq,
}
use cpo.Exec.{ok, err, ◌>>=◌, pure, raise}
use cpo.OpenStack.Lbaas.Api.{failed, LoadBalancer, FloatingIp, Subnet, Balancer}
use cpo.OpenStack.Lbaas.Calls.{Call, seen, wrapped, if_found}
use cpo.OpenStack.Lbaas.Lookup.{
  get_floating_ip_by_floating_ip, get_floating_ip_by_port_id, get_subnet,
}
use cpo.OpenStack.Lbaas.Services.{
  Service, get_string_from_service_annotation, floating_subnet, floating_subnet_id,
}

abbrev subnet_id_or_empty : Option Subnet → Str
subnet_id_or_empty none = []
subnet_id_or_empty (some s) = s.id

-- `IP` of `status.Ingress`
abbrev pub ingress : Option FloatingIp → LoadBalancer → Str
ingress none lb = lb.vip_address
ingress (some ip) lb = ip.floating_ip

module _ (B : Balancer) where
  -- The identifier in the annotation, or that of the subnet that is named there.
  unfoldable pub choose_floating_subnet : Service → Call B Str
  choose_floating_subnet service =
      let id = get_string_from_service_annotation service floating_subnet_id [] in
      let name = get_string_from_service_annotation service floating_subnet [] in
      if not (id == [])
      then pure id
      else (seen (wrapped (str "failed to find floatingip subnet")) (get_subnet B name) >>= λ found.
          pure (subnet_id_or_empty found))

  unfoldable pub create_floating_ip : Str → Str → Service → LoadBalancer → Call B FloatingIp
  create_floating_ip cluster_name floating_pool service lb = do
    subnet ← choose_floating_subnet service
    seen (wrapped (str "error creating LB floatingip")) (
        B.create_floating_ip (record {
          floating_network_id = floating_pool;
          port_id = lb.vip_port_id;
          description =
              str "Floating IP for Kubernetes external service "
              ++ service.namespace
              ++ str "/"
              ++ service.name
              ++ str " from cluster "
              ++ cluster_name;
          subnet_id = subnet;
          floating_ip = service.load_balancer_ip;
        }))

  -- The address that the service asks for, if the project has it, is not taken from another port.
  unfoldable pub attach_floating_ip : LoadBalancer → FloatingIp → Call B FloatingIp
  attach_floating_ip lb ip =
      if ip.port_id == []
      then seen (wrapped (str "error updating LB floatingip"))
          (B.update_floating_ip ip.id lb.vip_port_id)
      else raise (failed (str "floatingip is attached already to another port"))

  unfoldable pub reuse_or_create : Str → Str → Service → LoadBalancer → Str → Call B FloatingIp
  reuse_or_create cluster_name floating_pool service lb [] s =
      create_floating_ip cluster_name floating_pool service lb s
  reuse_or_create cluster_name floating_pool service lb (c ∷ ip) s =
      let (r, s') = get_floating_ip_by_floating_ip B (c ∷ ip) s in
      elim r [
        | ok found ↦ attach_floating_ip lb found s'
        | err _ ↦ create_floating_ip cluster_name floating_pool service lb s'
      ]

  unfoldable pub needed_floating_ip :
      Str → Str → Bool → Service → LoadBalancer → Option FloatingIp → Call B (Option FloatingIp)
  needed_floating_ip cluster_name floating_pool internal service lb (some ip) = pure (some ip)
  needed_floating_ip cluster_name floating_pool internal service lb none =
      if not (floating_pool == []) && not internal
      then (reuse_or_create cluster_name floating_pool service lb service.load_balancer_ip >>= λ ip.
          pure (some ip))
      else pure none

  unfoldable pub ensure_floating_ip :
      Str → Str → Bool → Service → LoadBalancer → Call B (Option FloatingIp)
  ensure_floating_ip cluster_name floating_pool internal service lb =
      seen (λ r. wrapped (str "error getting floating ip for port") (if_found r))
        (get_floating_ip_by_port_id B lb.vip_port_id)
      >>= needed_floating_ip cluster_name floating_pool internal service lb
