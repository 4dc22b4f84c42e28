-- ===== src/OpenStack/Lbaas/Groups.antt =====
-- openstack_loadbalancer.go: the security groups of a load balancer and of the nodes.
use cpo.Base.{ℕ, none, some, List, [], ◌∷◌, ◌++◌, Str, str, if◌then◌else◌, nat_eq, list_eq}
use cpo.Exec.{Result, ok, err, ◌>>=◌, pure, raise}
use cpo.OpenStack.Servers.{get_server_by_name}
use cpo.OpenStack.Lbaas.Api.{
  Fault, failed, no_such_resource, NetworkPort, of_device, with_tag, Rule, RuleOpts, Balancer,
}
use cpo.OpenStack.Lbaas.Calls.{
  with_ports, Call, Method, call, seen, wrapped, known_errors, or_missing, or_empty,
}
use cpo.OpenStack.Lbaas.Lookup.{to_rule_protocol, get_security_group_rules}
use cpo.OpenStack.Lbaas.Services.{ServicePort, Service, Node, LbOpts, get_security_group_name}
use cpo.Sets.{StringSet, insert_all}

abbrev node_rule : Str → Str → ℕ → Str → Str → Str → RuleOpts
node_rule ether_type group port protocol remote_group remote_prefix = record {
  direction = str "ingress";
  ether_type = ether_type;
  port_range_min = some port;
  port_range_max = some port;
  protocol = protocol;
  remote_group_id = remote_group;
  remote_ip_prefix = remote_prefix;
  security_group_id = group;
}

-- The groups of all ports.
abbrev pub groups_of : List NetworkPort → List Str
groups_of [] = []
groups_of (port ∷ ports) = port.security_groups ++ groups_of ports

-- `err != nil && isSecurityGroupNotFound(err)`: no identifier.
abbrev pub or_no_group : Result Fault Str → Result Fault Str
or_no_group (ok id) = ok id
or_no_group (err no_such_resource) = ok []
or_no_group (err e) = err (failed (str "error occurred finding security group"))

module _ (B : Balancer) (S : StringSet) where
  unfoldable pub apply_to_ports : Str → List NetworkPort → Call B (Unit {0})
  apply_to_ports sg [] = pure tt
  apply_to_ports sg (port ∷ ports) = do
    _ ←
        seen (wrapped (str "failed to update security group for port"))
          (B.update_port_groups port.id (port.security_groups ++ sg ∷ []))
    _ ← seen (wrapped (str "failed to add tag")) (B.add_tag port.id sg)
    apply_to_ports sg ports

  -- `applyNodeSecurityGroupIDForLB`
  unfoldable pub apply_node_security_group : List Node → Str → Call B (Unit {0})
  apply_node_security_group [] sg = pure tt
  apply_node_security_group (node ∷ nodes) sg = do
    srv ← known_errors (get_server_by_name B.cloud node.name)
    ports ← B.list_ports (of_device srv.id)
    _ ← apply_to_ports sg ports
    apply_node_security_group nodes sg

  -- The groups of a port without one of them.
  abbrev pub without : Str → NetworkPort → List Str
  without sg port = S.list (S.delete (insert_all S S.empty port.security_groups) sg)

  unfoldable pub disassociate_ports : Str → List NetworkPort → Call B (Unit {0})
  disassociate_ports sg [] = pure tt
  disassociate_ports sg (port ∷ ports) = do
    _ ←
        seen (wrapped (str "failed to update security group for port"))
          (B.update_port_groups port.id (without sg port))
    _ ← seen (wrapped (str "failed to remove tag")) (B.delete_tag port.id sg)
    disassociate_ports sg ports

  -- `disassociateSecurityGroupForLB`
  unfoldable pub disassociate_security_group : Str → Call B (Unit {0})
  disassociate_security_group sg = do
    ports ← B.list_ports (with_tag sg)
    disassociate_ports sg ports

  unfoldable pub collect_groups : S.Set → List Node → Call B S.Set
  collect_groups ids [] = pure ids
  collect_groups ids (node ∷ nodes) = do
    srv ← known_errors (get_server_by_name B.cloud node.name)
    ports ← B.list_ports (of_device srv.id)
    collect_groups (insert_all S ids (groups_of ports)) nodes

  -- `getNodeSecurityGroupIDForLB`
  unfoldable pub get_node_security_groups : List Node → Call B (List Str)
  get_node_security_groups nodes = collect_groups S.empty nodes >>= λ ids. pure (S.list ids)

  -- `lbaas.opts.NodeSecurityGroupIDs, err = getNodeSecurityGroupIDForLB(...)`: after an error the
  -- field is empty.
  abbrev pub groups_or_none : Result Fault (List Str) → List Str
  groups_or_none (ok ids) = ids
  groups_or_none (err _) = []

  unfoldable pub read_node_security_groups : List Node → Method B (Unit {0})
  read_node_security_groups nodes l =
      let (r, w) = get_node_security_groups nodes l.world in
      (
        elim r [
          | ok _ ↦ ok tt
          | err _ ↦ err (failed (str "failed to find node-security-group for loadbalancer service"))
        ],
        record { world = w; opts = record l.opts { node_security_group_ids = groups_or_none r } },
      )

  -- `createNodeSecurityGroup`
  unfoldable pub create_node_security_group : Str → ServicePort → Str → Call B (Unit {0})
  create_node_security_group group port lb_group =
      let protocol = to_rule_protocol B.cloud.to_lower port.protocol in
      B.create_rule (node_rule (str "IPv4") group port.node_port protocol lb_group []) >>= λ _.
      B.create_rule (node_rule (str "IPv6") group port.node_port protocol lb_group [])

  unfoldable pub delete_rules : List Rule → Call B (Unit {0})
  delete_rules [] = pure tt
  delete_rules (rule ∷ rules) = do
    _ ←
        seen (λ r. wrapped (str "error occurred deleting security group rule") (or_missing r))
          (B.delete_rule rule.id)
    delete_rules rules

  unfoldable pub find_rules : Str → RuleOpts → Call B (List Rule)
  find_rules text opts = seen (λ r. wrapped text (or_empty r)) (get_security_group_rules B opts)

  -- Rules for the port in one group of the nodes, where it has none for the load balancer.
  unfoldable pub ensure_node_rules : Str → Str → ServicePort → Str → Call B (Unit {0})
  ensure_node_rules text lb_group port group = do
    rules ← find_rules text (node_rule [] group port.node_port port.protocol lb_group [])
    elim rules [
      | _ ∷ _ ↦ pure tt
      | [] ↦
          seen (wrapped (str "error occurred creating security group for loadbalancer service"))
            (create_node_security_group group port lb_group)
    ]

  unfoldable pub ensure_all_node_rules : Str → Str → ServicePort → List Str → Call B (Unit {0})
  ensure_all_node_rules text lb_group port [] = pure tt
  ensure_all_node_rules text lb_group port (group ∷ groups) =
      ensure_node_rules text lb_group port group >>= λ _.
      ensure_all_node_rules text lb_group port groups

  -- The rules for the port in groups that no node has any more.
  unfoldable pub remove_node_rules : Str → ServicePort → List Str → Call B (Unit {0})
  remove_node_rules lb_group port [] = pure tt
  remove_node_rules lb_group port (group ∷ groups) = do
    rules ←
        find_rules (str "error finding rules for remote group id")
          (node_rule [] group port.node_port port.protocol lb_group [])
    _ ← delete_rules rules
    remove_node_rules lb_group port groups

  unfoldable pub update_ports : Str → List Str → List Str → List ServicePort → Call B (Unit {0})
  update_ports lb_group removals current [] = pure tt
  update_ports lb_group removals current (port ∷ ports) = do
    _ ← remove_node_rules lb_group port removals
    _ ← ensure_all_node_rules (str "error finding rules for remote group id") lb_group port current
    update_ports lb_group removals current ports

  abbrev pub removed_groups : List Str → List Str → List Str
  removed_groups original current =
      S.list (S.difference (insert_all S S.empty original) (insert_all S S.empty current))

  unfoldable pub update_rules : Service → List Str → Method B (Unit {0})
  update_rules service original l =
      (do
        lb_group ← call B (
            seen (wrapped (str "error occurred finding security group"))
              (B.group_id_from_name (get_security_group_name service)))
        with_ports B service.ports (
            call B (
              update_ports lb_group (removed_groups original l.opts.node_security_group_ids)
                l.opts.node_security_group_ids service.ports)))
        l

  -- `updateSecurityGroup`
  unfoldable pub update_security_group : Service → List Node → Method B (Unit {0})
  update_security_group service nodes l =
      (read_node_security_groups nodes >>= λ _. update_rules service l.opts.node_security_group_ids)
        l

  -- The rules of all groups of the nodes for a load balancer's group.
  abbrev pub any_rule : Str → Str → RuleOpts
  any_rule group lb_group = record {
    direction = [];
    ether_type = [];
    port_range_min = none;
    port_range_max = none;
    protocol = [];
    remote_group_id = lb_group;
    remote_ip_prefix = [];
    security_group_id = group;
  }

  unfoldable pub delete_all_rules : Str → List Str → Call B (Unit {0})
  delete_all_rules lb_group [] = pure tt
  delete_all_rules lb_group (group ∷ groups) = do
    rules ← find_rules (str "error finding rules for remote group id") (any_rule group lb_group)
    _ ← delete_rules rules
    delete_all_rules lb_group groups

  unfoldable pub delete_group : LbOpts → Str → Call B (Unit {0})
  delete_group opts lb_group = do
    _ ←
        if opts.use_octavia
        then seen (wrapped (str "failed to disassociate security group"))
            (disassociate_security_group lb_group)
        else pure tt
    _ ← seen or_missing (B.delete_group lb_group)
    delete_all_rules lb_group opts.node_security_group_ids

  abbrev pub delete_named : LbOpts → Result Fault Str → Call B (Unit {0})
  delete_named opts (ok lb_group) = delete_group opts lb_group
  delete_named opts (err no_such_resource) = pure tt
  delete_named opts (err _) = raise (failed (str "error occurred finding security group"))

  -- `EnsureSecurityGroupDeleted`: it is over where there is no such group.
  unfoldable pub ensure_security_group_deleted : LbOpts → Service → Call B (Unit {0})
  ensure_security_group_deleted opts service s =
      let (r, s') = B.group_id_from_name (get_security_group_name service) s in
      delete_named opts r s'
