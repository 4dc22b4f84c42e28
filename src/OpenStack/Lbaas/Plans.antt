-- ===== src/OpenStack/Lbaas/Plans.antt =====
-- openstack_loadbalancer.go: what `EnsureLoadBalancer` reads off the service and tests before it looks
-- for the load balancer.
use cpo.Base.{
  ◌==◌, Bool, not, ◌&&◌, Option, none, some, List, [], Str, str, if◌then◌else◌, all, nat_eq,
  list_eq,
}
use cpo.Exec.{Result, ok, err, ◌>>=◌, pure, lift}
use cpo.IpNets.{Networks}
use cpo.OpenStack.Lbaas.Api.{Fault, failed, Balancer}
use cpo.OpenStack.Lbaas.Calls.{Call, seen}
use cpo.OpenStack.Lbaas.Listeners.{or_failed}
use cpo.OpenStack.Lbaas.Lookup.{get_floating_network_id_for_lb}
use cpo.OpenStack.Lbaas.Ranges.{is_allow_all, get_load_balancer_source_ranges}
use cpo.OpenStack.Lbaas.Services.{
  ServicePort, Service, LbOpts, get_string_from_service_annotation,
  get_bool_from_service_annotation, floating_network_id, internal_load_balancer,
}

pub record Plan : Type 0 where
  pub floating_pool : Str
  pub internal : Bool
  pub persistence : Option Str

abbrev pub are_tcp : List ServicePort → Bool
are_tcp ports = all (λ (p : ServicePort). p.protocol == str "TCP") ports

abbrev pub persistence_of : Str → Result Fault (Option Str)
persistence_of affinity =
    if affinity == str "None"
    then ok none
    else if affinity == str "ClientIP"
    then ok (some (str "SOURCE_IP"))
    else err (failed (str "unsupported load balancer affinity"))

-- `if cond { return fmt.Errorf(text) }`
abbrev pub refuse_if : Bool → Str → Result Fault (Unit {0})
refuse_if cond text = if cond then err (failed text) else ok tt

abbrev pub pool_or_empty : Result Fault Str → Result Fault Str
pool_or_empty (ok id) = ok id
pool_or_empty (err _) = ok []

abbrev pub no_floating_network : Str
no_floating_network =
    str "floating-network-id or loadbalancer.openstack.org/floating-network-id should be specified"

abbrev pub only_tcp : Str
only_tcp = str "only TCP LoadBalancer is supported for openstack load balancers"

abbrev pub no_source_ranges : Str
no_source_ranges = str "source range restrictions are not supported for openstack load balancers"

module _ (B : Balancer) where
  -- `floatingPool`: no network is found where the search fails.
  unfoldable pub choose_pool : LbOpts → Service → Call B Str
  choose_pool opts service =
      let pool =
        get_string_from_service_annotation service floating_network_id opts.floating_network_id in
      if pool == [] then seen pool_or_empty (get_floating_network_id_for_lb B) else pure pool

  -- The tests, in the order of the code.
  unfoldable pub plan_with : Networks → LbOpts → Service → Str → Call B Plan
  plan_with N opts service pool = do
    internal ← lift (
        or_failed (str "unknown")
          (get_bool_from_service_annotation service internal_load_balancer opts.internal_lb))
    _ ← lift (refuse_if (not internal && pool == []) no_floating_network)
    _ ← lift (refuse_if (not (are_tcp service.ports)) only_tcp)
    ranges ← lift (
        or_failed (str "failed to get source ranges for loadbalancer service")
          (get_load_balancer_source_ranges N service))
    _ ← lift (
        refuse_if (not (is_allow_all N ranges) && not opts.manage_security_groups) no_source_ranges)
    persistence ← lift (persistence_of service.session_affinity)
    pure (record { floating_pool = pool; internal = internal; persistence = persistence })

  unfoldable pub make_plan : Networks → LbOpts → Service → Call B Plan
  make_plan N opts service = choose_pool opts service >>= plan_with N opts service
