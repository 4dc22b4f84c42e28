-- ===== src/OpenStack/Routes/Create.antt =====
-- `CreateRoute` of openstack_routes.go.
use cpo.Base.{
  ◌==◌, Bool, true, false, ◌&&◌, List, [], ◌∷◌, ◌++◌, Str, if◌then◌else◌, nat_eq, list_eq,
}
use cpo.Exec.{Exec, ◌>>=◌, pure}
use cpo.OpenStack.Api.{Error, Route, Router, AddressPair, Cloud}
use cpo.OpenStack.Servers.{get_address_by_name}
use cpo.OpenStack.Routes.Unwind.{
  Body, call, disarm, deferred, with_caller, update_routes, update_allowed_address_pairs,
}
use cpo.OpenStack.Routes.Ports.{Routes, get_port_id_by_ip, get_port_by_id}

-- `cloudprovider.Route`; its `Name` and `DestinationCIDR` are the same text.
pub record NodeRoute : Type 0 where
  pub target_node : Str
  pub destination_cidr : Str
  pub blackhole : Bool

-- The entry that is sent to the router.
abbrev pub new_route : NodeRoute → Str → Route
new_route route addr = record { destination_cidr = route.destination_cidr; next_hop = addr }

-- The loop that looks for the route.
abbrev pub route_exists : List Route → Str → Str → Bool
route_exists [] cidr addr = false
route_exists (item ∷ routes) cidr addr =
    let rest = route_exists routes cidr addr in
    if item.destination_cidr == cidr && item.next_hop == addr then true else rest

-- The loop that sets `found`.
abbrev pub pair_exists : List AddressPair → Str → Bool
pair_exists [] cidr = false
pair_exists (item ∷ pairs) cidr =
    let rest = pair_exists pairs cidr in if item.ip_address == cidr then true else rest

module _ (C : Cloud) where
  -- From "get the port of addr on target node" on.
  unfoldable pub create_pairs : NodeRoute → Str → Body C (Unit {0})
  create_pairs route addr = do
    port_id ← call C (get_port_id_by_ip C route.target_node addr)
    port ← call C (get_port_by_id C port_id)
    let pairs = port.allowed_address_pairs
    if pair_exists pairs route.destination_cidr then disarm C else do
      unwind ← call C (
          update_allowed_address_pairs C port
            (pairs ++ (record { ip_address = route.destination_cidr }) ∷ []))
      deferred C unwind (disarm C)

  -- From the look at the router's routes on.
  unfoldable pub create_after_router : NodeRoute → Str → Router → Body C (Unit {0})
  create_after_router route addr router =
      if route_exists router.routes route.destination_cidr addr then pure tt else do
        unwind ← call C (update_routes C router (router.routes ++ new_route route addr ∷ []))
        deferred C unwind (create_pairs route addr)

  unfoldable pub create_body : Routes → NodeRoute → Body C (Unit {0})
  create_body r route = do
    addr ← call C (
        get_address_by_name C route.target_node (C.is_cidr_v6 route.destination_cidr)
          r.networking_opts)
    router ← call C (C.get_router r.router_id)
    create_after_router route addr router

  unfoldable pub create_route : Routes → NodeRoute → Exec Error C.State (Unit {0})
  unfolding create_body
  create_route r route = with_caller C (create_body r route)
