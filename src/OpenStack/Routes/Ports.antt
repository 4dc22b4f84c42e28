-- ===== src/OpenStack/Routes/Ports.antt =====
-- `getPortIDByIP` and `getPortByID` of openstack_routes.go, and `NewRoutes`.
use cpo.Base.{
  ◌==◌, Bool, true, false, Option, none, some, List, [], ◌∷◌, Str, if◌then◌else◌, nat_eq, list_eq,
}
use cpo.Exec.{Result, ok, err, Exec, ◌>>=◌, lift}
use cpo.OpenStack.Api.{Error, not_found, no_router_id, Port, Interface, FixedIp, Cloud}
use cpo.OpenStack.Servers.{NetworkingOpts, get_server_by_name, get_attached_interfaces_by_id}

-- What `NewRoutes` keeps: the router's id and the networking options.
pub record Routes : Type 0 where
  pub router_id : Str
  pub networking_opts : NetworkingOpts

unfoldable pub new_routes : Str → NetworkingOpts → Result Error Routes
new_routes router_id opts =
    if router_id == []
    then err no_router_id
    else ok (record { router_id = router_id; networking_opts = opts })

-- The inner loop over the fixed addresses of one interface.
abbrev pub has_fixed_ip : List FixedIp → Str → Bool
has_fixed_ip [] ip = false
has_fixed_ip (x ∷ xs) ip =
    let rest = has_fixed_ip xs ip in if x.ip_address == ip then true else rest

unfoldable pub find_port : List Interface → Str → Result Error Str
find_port [] ip = err not_found
find_port (i ∷ is) ip =
    let rest = find_port is ip in if has_fixed_ip i.fixed_ips ip then ok i.port_id else rest

-- A nil port is ErrNotFound.
unfoldable pub or_not_found : Option Port → Result Error Port
or_not_found none = err not_found
or_not_found (some p) = ok p

module _ (C : Cloud) where
  unfoldable pub get_port_id_by_ip : Str → Str → Exec Error C.State Str
  get_port_id_by_ip node ip = do
    srv ← get_server_by_name C node
    interfaces ← get_attached_interfaces_by_id C srv.id
    lift (find_port interfaces ip)

  unfoldable pub get_port_by_id : Str → Exec Error C.State Port
  unfolding or_not_found
  get_port_by_id id = do target ← C.get_port id; lift (or_not_found target)
