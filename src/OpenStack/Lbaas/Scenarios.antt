-- ===== src/OpenStack/Lbaas/Scenarios.antt =====
-- A service with two nodes on a small load-balancing service: the theorems at concrete inputs, and tests.
mod OneLb
mod Web
mod Deleted
use mathlib.Core.List.{Perm}
use cpo.Base.{
  ℕ, zero, suc, ◌+◌, ◌<◌, ◌≤◌, ◌≡◌, ◌≢◌, ◌↔◌, refl, ap, Bool, true, false, not, ◌&&◌, ◌||◌, Option,
  none, some, List, [], ◌∷◌, ◌==◌, Str, str, arith, any, nat_eq, list_eq, nat_beq, length,
}
use cpo.Exec.{Result, ok, err}
use cpo.IpNets.{Networks}
use cpo.Maps.{has_key, get}
use cpo.OpenStack.Api.{not_found}
use cpo.OpenStack.Servers.{NodeAddress, internal_ip, host_name}
use cpo.OpenStack.Lbaas.Api.{known, Member, Balancer}
use cpo.OpenStack.Lbaas.Calls.{Lbaas}
use cpo.OpenStack.Lbaas.Lookup.{
  get_floating_network_id_for_lb, collect_external, pick_network, get_members_by_pool_id,
  collect_all, get_loadbalancer_by_name, or_legacy,
}
use cpo.OpenStack.Lbaas.Lookup.Networks.{get_floating_network_id_for_lb-first}
use cpo.OpenStack.Lbaas.Members.{
  is_member, member_exists, pop_member, pop_from, Target, settled, create_member, ensure_member,
  ensure_node_members, delete_member, delete_members, list_members, ensure_members,
}
use cpo.OpenStack.Lbaas.Members.Reconciled.{ensure_members-exact}
use cpo.OpenStack.Lbaas.Members.Rounds.{has_address}
use cpo.OpenStack.Lbaas.Services.{
  ServicePort, Service, Node, LbOpts, node_address_for_lb, get_load_balancer_name, subnet_id,
}
use cpo.OpenStack.Lbaas.Wait.{poll, wait_active, wait_deleted}
use cpo.OpenStack.Lbaas.Wait.Active.{BackoffLaws, BecomesActive, wait_active_iff, wait-bounded}
use cpo.OpenStack.Lbaas.Ensure.{ensure_load_balancer}
use cpo.OpenStack.Lbaas.Ensure.SubnetKept.{ensure_load_balancer-leaks_subnet}
use cpo.OpenStack.Lbaas.Subnets.{choose_subnet}
use cpo.OpenStack.Lbaas.Update.{
  Scope, update_pool, update_parts, members_by_address, add_members, add_member, remove_members,
  remove_member,
}
use cpo.OpenStack.Lbaas.Update.Legacy.{update_parts-legacy}
use cpo.OpenStack.Lbaas.Update.Updated.{update_pool-exact}
use cpo.Sets.Listed.{listed}
use cpo.OpenStack.Lbaas.Scenarios.Web.{web_port, service_with, opts}
use cpo.OpenStack.Lbaas.Scenarios.OneLb.{Ids, member_of, the_lb, one_lb, members, one_lb-MemberLaws}

abbrev node_at : Str → Str → Node
node_at name address = record {
  name = name;
  provider_id = str "openstack:///";
  addresses =
      (record { kind = host_name; address = name })
      ∷ (record { kind = internal_ip; address = address })
      ∷ [];
}

abbrev nodes : List Node
nodes = node_at (str "n1") (str "10.0.0.1") ∷ node_at (str "n2") (str "10.0.0.2") ∷ []

-- One member that a node needs, and one that none does.
abbrev before : Ids
before = (30080 ∷ str "10.0.0.9") ∷ (30080 ∷ str "10.0.0.1") ∷ []

abbrev after : Ids
after = (30080 ∷ str "10.0.0.2") ∷ (30080 ∷ str "10.0.0.1") ∷ []

abbrev web_target : Target
web_target = record {
  load_balancer_id = str "lb";
  pool_id = str "p";
  name = str "kube_service_c_ns_web";
  port_index = 0;
  node_port = 30080;
  subnet_id = str "s";
}

ensure_members_runs : ensure_members one_lb web_target nodes before ≡ (ok tt, after)
unfolding ensure_members list_members get_members_by_pool_id collect_all ensure_node_members
    ensure_member create_member delete_members delete_member settled wait_active poll
    node_address_for_lb pop_member pop_from
ensure_members_runs = refl

ensure_members-exact_example :
    member_exists
      (members (str "p") (ensure_members one_lb web_target nodes before).1)
      (str "10.0.0.2")
      30080
    ≡ (nat_beq 30080 30080 && any (has_address (str "10.0.0.2")) nodes)
ensure_members-exact_example =
    ensure_members-exact one_lb members one_lb-MemberLaws web_target nodes before refl
      (ap (λ x. x.0) ensure_members_runs) (str "10.0.0.2") 30080

-- A load balancer that is active from the third read on; each read leaves an entry in the state.
abbrev status : Ids → Str
status (_ ∷ _ ∷ s) = str "ACTIVE"
status s = str "PENDING_CREATE"

abbrev slow : Balancer
slow = record one_lb {
  get_load_balancer = λ _ s. (ok (record the_lb { provisioning_status = status s }), [] ∷ s);
}

slow-BackoffLaws : BackoffLaws slow
slow-BackoffLaws = record { pause = λ b n s. s; attempts_made = λ b m p. refl }

wait_active_runs : wait_active slow (str "lb") [] ≡ (ok (str "ACTIVE"), [] ∷ [] ∷ [] ∷ [])
unfolding wait_active poll
wait_active_runs = refl

wait_active_iff_example :
    (((text : Str) × ((wait_active slow (str "lb") []).0 ≡ ok text))
      ↔ BecomesActive slow slow-BackoffLaws (str "lb") [])
    × (((wait_active slow (str "lb") []).0 ≡ ok (str "ACTIVE"))
        ↔ BecomesActive slow slow-BackoffLaws (str "lb") [])
wait_active_iff_example = wait_active_iff slow slow-BackoffLaws (str "lb") []

wait-bounded_example :
    (length (wait_active slow (str "lb") []).1 ≤ 0 + 19)
    × (length (wait_deleted slow (str "lb") []).1 ≤ 0 + 13)
unfolding slow-BackoffLaws
wait-bounded_example =
    wait-bounded slow slow-BackoffLaws (str "lb") length (λ s. omega arith) (λ b i s. refl) []

get_floating_network_id_for_lb-first_example :
    (get_floating_network_id_for_lb one_lb before).0 ≡ ok (str "public")
get_floating_network_id_for_lb-first_example =
    get_floating_network_id_for_lb-first one_lb before (str "public" ∷ str "other" ∷ []) refl

abbrev driver : Lbaas one_lb
driver = record { world = before; opts = opts }

abbrev texts : Networks
texts = record { IpNet = Str; text = λ n. n; parse_cidr = some }

ensure_load_balancer-leaks_subnet_example :
    (choose_subnet one_lb
      (service_with [] (web_port ∷ []))
      nodes
      (ensure_load_balancer one_lb listed texts
        (str "c")
        (service_with ((subnet_id, str "special") ∷ []) (web_port ∷ []))
        nodes
        driver).1).1.opts.subnet_id
    ≡ str "special"
ensure_load_balancer-leaks_subnet_example =
    ensure_load_balancer-leaks_subnet one_lb listed texts (str "c")
      (service_with ((subnet_id, str "special") ∷ []) (web_port ∷ []))
      (service_with [] (web_port ∷ [])) (node_at (str "n1") (str "10.0.0.1"))
      (node_at (str "n2") (str "10.0.0.2") ∷ []) nodes (str "special") refl (λ e. cc) refl driver

abbrev udp_service : Service
udp_service = service_with [] ((record { protocol = str "UDP"; port = 53; node_port = 30053 }) ∷ [])

abbrev scope : Scope
scope = record {
  loadbalancer = the_lb;
  listeners = [];
  pools = [];
  addrs =
      (str "10.0.0.1", node_at (str "n1") (str "10.0.0.1"))
      ∷ (str "10.0.0.2", node_at (str "n2") (str "10.0.0.2"))
      ∷ [];
  subnet_id = str "s";
}

update_pool_runs : update_pool one_lb scope 0 web_port (str "p") before ≡ (ok tt, after)
unfolding update_pool get_members_by_pool_id collect_all members_by_address add_members add_member
    remove_members remove_member settled wait_active poll
update_pool_runs = refl

update_pool-exact_example :
    member_exists
      (members (str "p") (update_pool one_lb scope 0 web_port (str "p") before).1)
      (str "10.0.0.9")
      30080
    ≡ (nat_beq 30080 30080 && has_key scope.addrs (str "10.0.0.9"))
update_pool-exact_example =
    update_pool-exact one_lb members one_lb-MemberLaws scope web_port (str "p") 0 before refl
      (ap (λ x. x.0) update_pool_runs) (str "10.0.0.9") 30080

other_name_refused :
    (update_parts one_lb opts (str "other") (service_with [] (web_port ∷ [])) nodes before).0
    ≡ err (known not_found)
unfolding get_load_balancer_name
other_name_refused =
    update_parts-legacy one_lb opts (str "other") (service_with [] (web_port ∷ [])) nodes before
      (λ s. refl)
