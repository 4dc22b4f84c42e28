-- ===== src/OpenStack/Routes/Listing.antt =====
-- `ListRoutes` of openstack_routes.go, with `foreachServer` and `mapServerToNodeName`.
pub mod Owners
use cpo.Base.{Bool, true, false, Option, none, some, List, [], ◌∷◌, Str, map}
use cpo.Exec.{Result, ok, err, Exec, ◌>>=◌, pure}
use cpo.Maps.{Map, put, get}
use cpo.OpenStack.Api.{Error, Pages, done, page, fail, Route, Server, Cloud}
use cpo.OpenStack.Servers.{NetworkingOpts, NodeAddress, node_addresses}
use cpo.OpenStack.Routes.Ports.{Routes}
use cpo.OpenStack.Routes.Create.{NodeRoute}

-- `nodeNamesByAddr[addr.Address] = name` for each address.
unfoldable pub put_addresses : Str → List NodeAddress → Map Str → Map Str
put_addresses name [] names = names
put_addresses name (addr ∷ addrs) names = put_addresses name addrs (put addr.address name names)

-- The loop over the routes of the router.
unfoldable pub node_route : Map Str → Route → NodeRoute
node_route names item = elim (get names item.next_hop) [
  | some name ↦ record {
    target_node = name;
    destination_cidr = item.destination_cidr;
    blackhole = false;
  }
  | none ↦ record {
    target_node = item.next_hop;
    destination_cidr = item.destination_cidr;
    blackhole = true;
  }
]

module _ (C : Cloud) where
  abbrev pub map_server_to_node_name : Server → Str
  map_server_to_node_name srv = C.to_lower srv.name

  -- The handler that `ListRoutes` gives to `foreachServer`.
  unfoldable pub handle_server : NetworkingOpts → Server → Map Str → Result Error (Map Str)
  unfolding put_addresses
  handle_server opts srv names = elim (node_addresses C srv opts) [
    | err e ↦ err e
    | ok addrs ↦ ok (put_addresses (map_server_to_node_name srv) addrs names)
  ]

  -- The loop over the servers of one page.
  unfoldable pub each_server : NetworkingOpts → List Server → Map Str → Result Error (Map Str)
  each_server opts [] names = ok names
  each_server opts (srv ∷ l) names = elim (handle_server opts srv names) [
    | err e ↦ err e
    | ok names' ↦ each_server opts l names'
  ]

  unfoldable pub foreach_server : NetworkingOpts → Pages Server → Map Str → Result Error (Map Str)
  foreach_server opts done names = ok names
  foreach_server opts (fail e) names = err e
  foreach_server opts (page l rest) names = elim (each_server opts l names) [
    | err e ↦ err e
    | ok names' ↦ foreach_server opts rest names'
  ]

  unfoldable pub names_by_addr : NetworkingOpts → Exec Error C.State (Map Str)
  unfolding foreach_server each_server handle_server
  names_by_addr opts s =
      let (pages, s') = C.list_servers none s in (foreach_server opts pages [], s')

  unfoldable pub list_routes : Routes → Exec Error C.State (List NodeRoute)
  unfolding node_route
  list_routes r = do
    names ← names_by_addr r.networking_opts
    router ← C.get_router r.router_id
    pure (map (node_route names) router.routes)
