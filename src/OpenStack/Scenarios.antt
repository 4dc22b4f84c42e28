-- ===== src/OpenStack/Scenarios.antt =====
-- A small cloud with one server and one router: the theorems at concrete inputs, and tests.
use mathlib.Core.List.{Perm}
use cpo.Base.{
  ◌↔◌, ◌++◌, if◌then◌else◌, ℕ, ◌≡◌, refl, sym, ap, ◌⊎◌, ◌==◌, Bool, true, false, ◌&&◌, some, List,
  [], ◌∷◌, map, Str, str, nat_eq, list_eq,
}
use cpo.Exec.{Exec, ok, err, ok-injective}
use cpo.OpenStack.Api.{
  Error, no_address_found, done, page, fail, Route, Router, AddressPair, Interface, Server, Cloud,
}
use cpo.OpenStack.Servers.{
  NodeAddress, internal_ip, external_ip, NetworkingOpts, node_addresses, pick_address,
  get_address_by_name, collect_servers, collect_interfaces, get_server_by_name,
  get_attached_interfaces_by_id, address_type, add_props, add_list, add_networks, add_set,
  add_to_node_addresses, first_address,
}
use cpo.OpenStack.Servers.Addresses.{
  IsPicked, NonePicked, pick_address-prefers, get_address_by_name-family,
}
use cpo.OpenStack.Instances.{
  GetError, missing, Details, provider_prefix, instance_id_from_provider_id, instance_id,
  instance_exists_by_provider_id,
}
use cpo.OpenStack.Instances.ProviderIds.{
  IsServerId, Reports, instance_id_from_provider_id_iff, instance_exists-instance_id,
}
use cpo.OpenStack.Servers.Distinct.{IsDistinct, node_addresses-IsDistinct}
use cpo.OpenStack.Routes.Ports.{Routes, get_port_id_by_ip, find_port}
use cpo.OpenStack.Routes.Listing.{
  list_routes, names_by_addr, foreach_server, each_server, handle_server, put_addresses, node_route,
}
use cpo.OpenStack.Routes.Listing.Owners.{all_servers, seen, list_routes-seen}
use cpo.OpenStack.Routes.Create.{NodeRoute, create_route}
use cpo.OpenStack.Routes.Created.{Creates, create_route-Creates}
use cpo.OpenStack.Routes.Delete.{
  delete_route, write_last, shorten, delete_found, delete_at, address_as, delete_pairs,
}
use cpo.OpenStack.Routes.Unwind.{update_routes}
use cpo.OpenStack.Routes.Deleted.{Deletes, delete_route-Deletes}
use cpo.OpenStack.Routes.SwapOut.{delete_found-perm}
use cpo.OpenStack.Routes.Laws.{Neutron}

-- The routes of the router, the pairs of the port, and whether the compute service answers.
record Small : Type 0 where
  routes : List Route
  pairs : List AddressPair
  up : Bool

abbrev node : Server
node = record {
  id = str "i1";
  name = str "node1";
  addresses =
      some ((str "private", (record { ip_type = str "fixed"; addr = str "10.0.0.1" }) ∷ []) ∷ []);
  access_ipv4 = str "172.0.0.1";
  access_ipv6 = str "fd00::1";
  hostname = [];
}

abbrev card : Interface
card = record {
  port_id = str "p1";
  fixed_ips = (record { ip_address = str "10.0.0.1"; subnet_id = str "n1" }) ∷ [];
}

abbrev has_colon : Str → Bool
has_colon [] = false
has_colon (c ∷ s) = let rest = has_colon s in elim (c == b':') [ true ↦ true | false ↦ rest ]

abbrev small : Cloud
small = record {
  State = Small;
  list_servers = λ _ s. (page (node ∷ []) done, s);
  list_interfaces =
      λ _ s. (elim s.up [ true ↦ page (card ∷ []) done | false ↦ fail (Error.api []) ], s);
  get_router = λ id s. (ok (record { id = id; routes = s.routes }), s);
  update_router = λ _ rs s. (ok tt, record s { routes = rs });
  get_port = λ id s. (ok (some (record { id = id; allowed_address_pairs = s.pairs })), s);
  update_port = λ _ ps s. (ok tt, record s { pairs = ps });
  is_ipv6 = has_colon;
  is_cidr_v6 = has_colon;
  to_lower = λ s. s;
}

abbrev small_routes : Str → Small → List Route
small_routes _ s = s.routes

small_neutron : Neutron small small_routes
small_neutron = record {
  list_servers_keeps = λ n s id. refl;
  list_interfaces_keeps = λ n s id. refl;
  get_router_keeps = λ n s id. refl;
  get_port_keeps = λ n s id. refl;
  update_port_keeps = λ n ps s id. refl;
  get_router_reads = λ n s r e.
      let g : record { id = n; routes = s.routes } ≡ r = ok-injective _ _ e in
      (sym (ap (λ (x : Router). x.id) g), sym (ap (λ (x : Router). x.routes) g));
  update_router_sets = λ n rs s e. refl;
  update_router_refused = λ n rs s e h. cc;
}

abbrev opts : NetworkingOpts
opts = record {
  ipv6_support_disabled = false;
  public_network_name = str "public";
  internal_network_name = [];
}

abbrev two_routes : List Route
two_routes =
    (record { destination_cidr = str "10.1.0.0/24"; next_hop = str "10.0.0.1" })
    ∷ (record { destination_cidr = str "10.2.0.0/24"; next_hop = str "10.0.0.2" })
    ∷ []

abbrev working : Small
working = record { routes = two_routes; pairs = []; up = true }

abbrev failing : Small
failing = record working { up = false }

abbrev first : NodeRoute
first = record {
  target_node = str "node1";
  destination_cidr = str "10.1.0.0/24";
  blackhole = false;
}

abbrev third : NodeRoute
third = record first { destination_cidr = str "10.3.0.0/24" }

abbrev router : Routes
router = record { router_id = str "r1"; networking_opts = opts }

-- The compute service fails after the route was taken out of the router. The unwinder sends the
-- second route twice and the first one not at all.
failed_delete_loses_a_route :
    (delete_route small router first failing).1.routes
    ≡ (record { destination_cidr = str "10.2.0.0/24"; next_hop = str "10.0.0.2" })
      ∷ (record { destination_cidr = str "10.2.0.0/24"; next_hop = str "10.0.0.2" })
      ∷ []
unfolding delete_route delete_found delete_at address_as delete_pairs get_address_by_name
    get_server_by_name collect_servers node_addresses add_networks add_list add_props add_set
    add_to_node_addresses address_type pick_address first_address get_port_id_by_ip
    get_attached_interfaces_by_id collect_interfaces find_port update_routes
failed_delete_loses_a_route = refl

abbrev both : List NodeAddress
both =
    (record { kind = external_ip; address = str "172.0.0.1" })
    ∷ (record { kind = internal_ip; address = str "10.0.0.1" })
    ∷ []

node_addresses-IsDistinct_example : IsDistinct (
    (record { kind = internal_ip; address = str "10.0.0.1" })
    ∷ (record { kind = external_ip; address = str "172.0.0.1" })
    ∷ (record { kind = external_ip; address = str "fd00::1" })
    ∷ [])
unfolding node_addresses add_networks add_list add_props add_set add_to_node_addresses address_type
node_addresses-IsDistinct_example = node_addresses-IsDistinct small opts node _ refl

internal_preferred :
    ((x : Str) × (pick_address small false both ≡ ok x) × IsPicked small false both x)
    ⊎ ((pick_address small false both ≡ err no_address_found) × NonePicked small false both)
internal_preferred = pick_address-prefers small false both

-- The internal address is taken, although the external one stands before it.
picks_the_internal_address : pick_address small false both ≡ ok (str "10.0.0.1")
unfolding pick_address first_address
picks_the_internal_address = refl

get_address_by_name-family_example :
    (small.is_ipv6 (str "10.0.0.1") ≡ false)
    × ((small.is_ipv6 (str "10.0.0.1") && opts.ipv6_support_disabled) ≡ false)
unfolding get_address_by_name get_server_by_name collect_servers node_addresses add_networks
    add_list add_props add_set add_to_node_addresses address_type pick_address first_address
get_address_by_name-family_example =
    get_address_by_name-family small false opts (str "node1") working (str "10.0.0.1") refl

create_route-Creates_example :
    let (res, s) = create_route small router third working in
    Creates small small_routes small_neutron (str "r1") opts third working res s
create_route-Creates_example =
    create_route-Creates small small_routes small_neutron (str "r1") opts third working

delete_route-Deletes_example :
    let (res, s) = delete_route small router first failing in
    Deletes small small_routes small_neutron (str "r1") opts first failing res s
delete_route-Deletes_example =
    delete_route-Deletes small small_routes small_neutron (str "r1") opts first failing

delete_found-perm_example :
    (x : ℕ) × ((x == 3) ≡ true)
    × Perm (x ∷ shorten (write_last (2 ∷ 3 ∷ 5 ∷ 3 ∷ 7 ∷ []) 1)) (2 ∷ 3 ∷ 5 ∷ 3 ∷ 7 ∷ [])
delete_found-perm_example = delete_found-perm (λ x. x == 3) (2 ∷ 3 ∷ 5 ∷ 3 ∷ 7 ∷ []) 1 refl

-- One route leads to the server, the other to nobody.
abbrev half_known : Small
half_known = record {
  routes =
      (record { destination_cidr = str "10.1.0.0/24"; next_hop = str "10.0.0.1" })
      ∷ (record { destination_cidr = str "10.9.0.0/24"; next_hop = str "10.0.0.9" })
      ∷ [];
  pairs = [];
  up = true;
}

abbrev listed : List NodeRoute
listed =
    (record { target_node = str "node1"; destination_cidr = str "10.1.0.0/24"; blackhole = false })
    ∷ (record {
      target_node = str "10.0.0.9";
      destination_cidr = str "10.9.0.0/24";
      blackhole = true;
    })
    ∷ []

list_routes-seen_example :
    (r : Router) × ((small.get_router router.router_id half_known).0 ≡ ok r)
    × (listed ≡ map (seen small opts (all_servers (page (node ∷ []) done))) r.routes)
unfolding list_routes names_by_addr foreach_server each_server handle_server put_addresses
    node_route node_addresses add_networks add_list add_props add_set add_to_node_addresses
    address_type
list_routes-seen_example = list_routes-seen small router half_known listed refl

instance_id_from_provider_id_iff_example :
    (instance_id_from_provider_id (str "openstack:///i1") ≡ ok (str "i1"))
    ↔ ((str "openstack:///i1" ≡ provider_prefix ++ str "i1") × IsServerId (str "i1"))
instance_id_from_provider_id_iff_example =
    instance_id_from_provider_id_iff (str "openstack:///i1") (str "i1")

-- `servers.Get` of the small cloud.
abbrev get_node : Str → Exec GetError Small Details
get_node id s = (
  if id == str "i1" then ok (record { server = node; status = str "ACTIVE" }) else err missing,
  s,
)

instance_exists-instance_id_example :
    Reports
      (get_node (str "i1") working).0
      (instance_exists_by_provider_id small get_node (str "openstack://" ++ str "/i1") working).0
unfolding get_server_by_name collect_servers instance_id
instance_exists-instance_id_example =
    instance_exists-instance_id small get_node (str "node1") (str "/i1") node working working refl
      ((λ e. cc), refl) refl
