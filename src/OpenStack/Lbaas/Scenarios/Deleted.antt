-- ===== src/OpenStack/Lbaas/Scenarios/Deleted.antt =====
-- The deletion of the one load balancer, of which the state holds the members: none once it is deleted.
use cpo.Base.{◌≡◌, refl, ap, Bool, true, false, [], ◌∷◌, str}
use cpo.Exec.{Result, ok, err}
use cpo.OpenStack.Lbaas.Api.{Fault, missing, LoadBalancer, Balancer}
use cpo.OpenStack.Lbaas.Groups.{
  ensure_security_group_deleted, delete_group, delete_all_rules, find_rules, delete_rules,
}
use cpo.OpenStack.Lbaas.Listeners.{flag}
use cpo.OpenStack.Lbaas.Lookup.{
  get_loadbalancer_by_name, or_legacy, get_listeners_by_load_balancer_id, get_pool_by_listener_id,
  get_members_by_pool_id, get_floating_ip_by_port_id, get_security_group_rules, collect_all,
  collect_one, get_floating_ip,
}
use cpo.OpenStack.Lbaas.Members.{settled}
use cpo.OpenStack.Lbaas.Remove.{
  ensure_load_balancer_deleted, delete_found, delete_floating_ip, delete_found_ip,
  delete_load_balancer, delete_each, find_parts, delete_and_settle, delete_monitors, delete_pools,
  delete_pool_members, delete_all_listeners,
}
use cpo.OpenStack.Lbaas.Remove.Deleted.{ensure_load_balancer_deleted-gone}
use cpo.OpenStack.Lbaas.Remove.Laws.{PresenceLaws}
use cpo.OpenStack.Lbaas.Scenarios.OneLb.{Ids, the_lb, one_lb}
use cpo.OpenStack.Lbaas.Scenarios.Web.{web_port, service_with, opts}
use cpo.OpenStack.Lbaas.Services.{
  Service, LbOpts, get_load_balancer_name, get_bool_from_service_annotation,
}
use cpo.OpenStack.Lbaas.Wait.{wait_active, poll, wait_deleted, poll_deleted}
use cpo.OpenStack.Lbaas.Wait.Active.{BackoffLaws}
use cpo.Sets.Listed.{listed}

abbrev read : Ids → Result Fault LoadBalancer
read [] = err missing
read (_ ∷ _) = ok the_lb

abbrev present : Ids → Bool
present [] = false
present (_ ∷ _) = true

abbrev deletable : Balancer
deletable = record one_lb {
  get_load_balancer = λ _ s. (read s, s);
  delete_load_balancer = λ _ _ s. (ok tt, []);
  delete_member = λ _ _ s. (ok tt, s);
  group_id_from_name = λ _ s. (ok (str "g"), s);
}

deletable-BackoffLaws : BackoffLaws deletable
deletable-BackoffLaws = record { pause = λ b n s. s; attempts_made = λ b m p. refl }

read-missing : (s : Ids) → read s ≡ err missing → present s ≡ false
read-missing [] h = refl
read-missing (_ ∷ _) h = cc

abbrev deletable-PresenceLaws : PresenceLaws deletable
deletable-PresenceLaws = record {
  there = λ s id. present s;
  read_missing = λ id s h. read-missing s h;
  group_id_from_name_keeps = λ name. record { at = λ s. refl };
  delete_group_keeps = λ group. record { at = λ s. refl };
  list_rules_keeps = λ opts s. refl;
  delete_rule_keeps = λ id. record { at = λ s. refl };
}

abbrev neutron : LbOpts
neutron = record opts {
  use_octavia = false;
  manage_security_groups = true;
  node_security_group_ids = str "nodes" ∷ [];
}

abbrev web : Service
web = service_with [] (web_port ∷ [])

abbrev one_member : Ids
one_member = (30080 ∷ str "10.0.0.1") ∷ []

deletion_runs :
    ensure_load_balancer_deleted deletable listed neutron (str "c") web one_member ≡ (ok tt, [])
unfolding ensure_load_balancer_deleted delete_found delete_floating_ip delete_found_ip
    delete_load_balancer delete_each find_parts delete_and_settle delete_monitors delete_pools
    delete_pool_members delete_all_listeners settled wait_active poll wait_deleted poll_deleted
    get_loadbalancer_by_name or_legacy get_listeners_by_load_balancer_id get_pool_by_listener_id
    get_members_by_pool_id get_floating_ip_by_port_id ensure_security_group_deleted delete_group
    delete_all_rules find_rules delete_rules get_security_group_rules collect_all
    get_load_balancer_name flag get_bool_from_service_annotation get_floating_ip collect_one
deletion_runs = refl

ensure_load_balancer_deleted-gone_example :
    present (ensure_load_balancer_deleted deletable listed neutron (str "c") web one_member).1
    ≡ false
unfolding get_loadbalancer_by_name or_legacy get_load_balancer_name
ensure_load_balancer_deleted-gone_example =
    ensure_load_balancer_deleted-gone deletable listed deletable-BackoffLaws deletable-PresenceLaws
      neutron (str "c") web the_lb one_member refl refl (ap (λ x. x.0) deletion_runs)
