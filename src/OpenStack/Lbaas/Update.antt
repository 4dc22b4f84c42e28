-- ===== src/OpenStack/Lbaas/Update.antt =====
-- openstack_loadbalancer.go: `UpdateLoadBalancer`. The order in which it visits the nodes is that of a
-- Go map, which is any; here it is the order of the entries.
pub mod Entries
pub mod Added
pub mod Left
pub mod Updated
pub mod Legacy
use cpo.Base.{
  ℕ, zero, suc, ◌==◌, Bool, true, false, not, ◌&&◌, Option, none, some, List, [], ◌∷◌, ◌++◌, Str,
  str, if◌then◌else◌, nat_eq, list_eq,
}
use cpo.Exec.{Result, ok, err, Exec, ◌>>=◌, ◌>>◌, pure, raise, lift}
use cpo.Maps.{Map, put, get, has_key}
use cpo.OpenStack.Lbaas.Api.{
  Fault, failed, LoadBalancer, Listener, Pool, Member, MemberOpts, Balancer,
}
use cpo.OpenStack.Lbaas.Calls.{
  with_ports, Call, Lbaas, Method, call, seen, wrapped, of_known, or_missing,
}
use cpo.OpenStack.Lbaas.Groups.{update_security_group}
use cpo.OpenStack.Lbaas.Listeners.{or_failed}
use cpo.OpenStack.Lbaas.Lookup.{
  is_listener_for, get_loadbalancer_by_name, get_listeners_by_load_balancer_id,
  get_pool_by_listener_id, get_members_by_pool_id,
}
use cpo.OpenStack.Lbaas.Members.{settled, after_creating_member, after_deleting_member}
use cpo.OpenStack.Lbaas.Services.{
  ServicePort, Service, Node, LbOpts, cut_string, get_load_balancer_name, node_address_for_lb,
}
use cpo.OpenStack.Lbaas.Subnets.{choose_subnet}
use cpo.Sets.{StringSet}
use cpo.Strings.Decimal.{decimal}

-- `lbListeners[key]`, for the key of a port: of listeners with one key the last stays.
abbrev pub last_listener_for : ServicePort → Option Listener → List Listener → Option Listener
last_listener_for port found [] = found
last_listener_for port found (l ∷ ls) =
    last_listener_for port (if is_listener_for port l then some l else found) ls

-- `addrs`
unfoldable pub node_addresses : Map Node → List Node → Result Fault (Map Node)
node_addresses addrs [] = ok addrs
node_addresses addrs (node ∷ nodes) = elim (node_address_for_lb node) [
  | err e ↦ of_known (err e)
  | ok addr ↦ node_addresses (put addr node addrs) nodes
]

-- `members`
unfoldable pub members_by_address : Map Member → List Member → Map Member
members_by_address found [] = found
members_by_address found (m ∷ ms) = members_by_address (put m.address m found) ms

-- `_, ok := members[addr]; ok && members[addr].ProtocolPort == port`
abbrev pub has_port : ℕ → Option Member → Bool
has_port port none = false
has_port port (some m) = m.protocol_port == port

-- What the loop over the ports has in scope.
pub record Scope : Type 0 where
  pub loadbalancer : LoadBalancer
  pub listeners : List Listener
  pub pools : Map Pool
  pub addrs : Map Node
  pub subnet_id : Str

abbrev update_opts : Scope → ℕ → ServicePort → Str → Node → MemberOpts
update_opts scope index port addr node = record {
  name = cut_string (
      str "member_"
      ++ decimal index
      ++ str "_"
      ++ node.name
      ++ str "_"
      ++ scope.loadbalancer.name
      ++ str "_");
  address = addr;
  protocol_port = port.node_port;
  subnet_id = scope.subnet_id;
}

module _ (B : Balancer) where
  -- The pools of the listeners, under the listeners' identifiers.
  unfoldable pub find_pools : Str → Map Pool → List Listener → Call B (Map Pool)
  find_pools id pools [] = pure pools
  find_pools id pools (l ∷ ls) = do
    pool ←
        seen (wrapped (str "error getting pool for listener")) (get_pool_by_listener_id B id l.id)
    find_pools id (put l.id pool pools) ls

  unfoldable pub add_member : Scope → ℕ → ServicePort → Str → Str → Node → Call B (Unit {0})
  add_member scope index port pool_id addr node = do
    _ ← B.create_member pool_id (update_opts scope index port addr node)
    settled B scope.loadbalancer.id after_creating_member

  -- The members that are missing.
  unfoldable pub add_members :
      Scope → ℕ → ServicePort → Str → Map Member → Map Node → Call B (Unit {0})
  add_members scope index port pool_id members [] = pure tt
  add_members scope index port pool_id members ((addr, node) ∷ addrs) =
      (if has_port port.node_port (get members addr)
        then pure tt
        else add_member scope index port pool_id addr node)
      >>= λ _. add_members scope index port pool_id members addrs

  unfoldable pub remove_member : Scope → Str → Member → Call B (Unit {0})
  remove_member scope pool_id member = do
    _ ← seen or_missing (B.delete_member pool_id member.id)
    settled B scope.loadbalancer.id after_deleting_member

  -- The members that no node needs.
  unfoldable pub remove_members : Scope → ServicePort → Str → Map Member → Call B (Unit {0})
  remove_members scope port pool_id [] = pure tt
  remove_members scope port pool_id ((_, member) ∷ members) =
      (if has_key scope.addrs member.address && member.protocol_port == port.node_port
        then pure tt
        else remove_member scope pool_id member)
      >>= λ _. remove_members scope port pool_id members

  unfoldable pub update_pool : Scope → ℕ → ServicePort → Str → Call B (Unit {0})
  update_pool scope index port pool_id = do
    listed ← seen (wrapped (str "error getting pool members")) (get_members_by_pool_id B pool_id)
    let members = members_by_address [] listed
    _ ← add_members scope index port pool_id members scope.addrs
    remove_members scope port pool_id members

  unfoldable pub update_port : Scope → ℕ → ServicePort → Call B (Unit {0})
  update_port scope index port = do
    listener ← lift (
        or_failed (str "loadbalancer does not contain required listener for port")
          (last_listener_for port none scope.listeners))
    pool ← lift (
        or_failed (str "loadbalancer does not contain required pool for listener")
          (get scope.pools listener.id))
    update_pool scope index port pool.id

  unfoldable pub update_ports : Scope → ℕ → List ServicePort → Call B (Unit {0})
  update_ports scope index [] = pure tt
  update_ports scope index (port ∷ ports) =
      update_port scope index port >>= λ _. update_ports scope (suc index) ports

  -- The load balancer, whose name is also given as the legacy name.
  unfoldable pub update_parts : LbOpts → Str → Service → List Node → Call B (Unit {0})
  update_parts opts cluster_name service nodes = do
    let name = get_load_balancer_name cluster_name service
    lb ← get_loadbalancer_by_name B name name
    listeners ←
        seen (wrapped (str "error getting listeners for LB"))
          (get_listeners_by_load_balancer_id B lb.id)
    pools ← find_pools lb.id [] listeners
    addrs ← lift (node_addresses [] nodes)
    update_ports
        (record {
          loadbalancer = lb;
          listeners = listeners;
          pools = pools;
          addrs = addrs;
          subnet_id = opts.subnet_id;
        })
        0 service.ports

  unfoldable pub update_groups : StringSet → Service → List Node → Method B (Unit {0})
  update_groups S service nodes l =
      (if l.opts.manage_security_groups
          then seen (wrapped (str "failed to update Security Group for loadbalancer service"))
              (update_security_group B S service nodes)
          else pure tt)
        l

  unfoldable pub update_with_ports : StringSet → Str → Service → List Node → Method B (Unit {0})
  update_with_ports S cluster_name service nodes l =
      (call B (update_parts l.opts cluster_name service nodes) >>= λ _.
      update_groups S service nodes)
        l

  -- `UpdateLoadBalancer`
  unfoldable pub update_load_balancer : StringSet → Str → Service → List Node → Method B (Unit {0})
  update_load_balancer S cluster_name service nodes = do
    _ ← choose_subnet B service nodes
    with_ports B service.ports (update_with_ports S cluster_name service nodes)
