-- ===== src/OpenStack/Lbaas/EnsureGroup.antt =====
-- openstack_loadbalancer.go: `ensureSecurityGroup`.
use cpo.Base.{
  ℕ, ◌==◌, Bool, not, ◌&&◌, none, some, List, [], ◌∷◌, ◌++◌, Str, str, if◌then◌else◌, contains,
  nat_eq, list_eq,
}
use cpo.Exec.{◌>>=◌, pure, raise, lift}
use cpo.IpNets.{Networks, string_slice}
use cpo.OpenStack.Lbaas.Api.{failed, LoadBalancer, Subnet, RuleOpts, Balancer}
use cpo.OpenStack.Lbaas.Calls.{with_ports, Call, Method, call, seen, wrapped}
use cpo.OpenStack.Lbaas.Groups.{
  or_no_group, apply_node_security_group, read_node_security_groups, find_rules,
  ensure_all_node_rules,
}
use cpo.OpenStack.Lbaas.Listeners.{or_failed}
use cpo.OpenStack.Lbaas.Lookup.{to_rule_protocol}
use cpo.OpenStack.Lbaas.Ranges.{get_load_balancer_source_ranges}
use cpo.OpenStack.Lbaas.Services.{ServicePort, Service, Node, LbOpts, get_security_group_name}
use cpo.Sets.{StringSet}

abbrev prefix_rule : Str → Str → ℕ → ℕ → Str → Str → RuleOpts
prefix_rule ether_type group low high protocol prefix = record {
  direction = str "ingress";
  ether_type = ether_type;
  port_range_min = some low;
  port_range_max = some high;
  protocol = protocol;
  remote_group_id = [];
  remote_ip_prefix = prefix;
  security_group_id = group;
}

module _ (B : Balancer) (S : StringSet) (N : Networks) where
  abbrev ether_type : Str → Str
  ether_type range = if B.cloud.is_cidr_v6 range then str "IPv6" else str "IPv4"

  -- One rule of the load balancer's group.
  unfoldable pub create_rule : RuleOpts → Call B (Unit {0})
  create_rule opts =
      seen (wrapped (str "error occurred creating rule for SecGroup")) (B.create_rule opts)

  unfoldable pub create_range_rule : Str → ServicePort → Str → Call B (Unit {0})
  create_range_rule group port range = elim (N.parse_cidr range) [
    | none ↦ raise (failed (str "error parsing source range"))
    | some _ ↦ create_rule (
        prefix_rule (ether_type range) group port.port port.port
          (to_rule_protocol B.cloud.to_lower port.protocol) range)
  ]

  unfoldable pub create_range_rules : Str → ServicePort → List Str → Call B (Unit {0})
  create_range_rules group port [] = pure tt
  create_range_rules group port (range ∷ ranges) =
      create_range_rule group port range >>= λ _. create_range_rules group port ranges

  unfoldable pub create_port_rules : Str → List Str → List ServicePort → Call B (Unit {0})
  create_port_rules group ranges [] = pure tt
  create_port_rules group ranges (port ∷ ports) =
      create_range_rules group port ranges >>= λ _. create_port_rules group ranges ports

  -- The ICMP messages "fragmentation needed" and "packet too big".
  unfoldable pub create_icmp_rules : Str → Call B (Unit {0})
  create_icmp_rules group =
      create_rule (prefix_rule (str "IPv4") group 3 4 (str "icmp") (str "0.0.0.0/0")) >>= λ _.
      create_rule (prefix_rule (str "IPv6") group 2 0 (str "icmp") (str "::/0"))

  unfoldable pub ensure_vip_group : Str → Str → Call B (Unit {0})
  ensure_vip_group vip_port_id group = do
    port ← B.get_network_port vip_port_id
    if contains port.security_groups group
        then pure tt
        else seen (wrapped (str "Error occurred updating port"))
            (B.update_port_groups vip_port_id (port.security_groups ++ group ∷ []))

  -- A new group for the load balancer, with its rules unless Octavia makes them.
  unfoldable pub create_lb_group : Bool → Str → Service → List Str → LoadBalancer → Call B Str
  create_lb_group use_octavia cluster_name service ranges loadbalancer = do
    group ← seen (wrapped (str "failed to create Security Group for loadbalancer service")) (
        B.create_group (get_security_group_name service) (
          str "Security Group for "
          ++ service.namespace
          ++ str "/"
          ++ service.name
          ++ str " Service LoadBalancer in cluster "
          ++ cluster_name))
    _ ← if use_octavia then pure tt else (do
      _ ← create_port_rules group ranges service.ports
      _ ← create_icmp_rules group
      ensure_vip_group loadbalancer.vip_port_id group)
    pure group

  unfoldable pub lb_group_or_new : Bool → Str → Service → List Str → LoadBalancer → Str → Call B Str
  lb_group_or_new use_octavia cluster_name service ranges loadbalancer [] =
      create_lb_group use_octavia cluster_name service ranges loadbalancer
  lb_group_or_new use_octavia cluster_name service ranges loadbalancer (c ∷ group) =
      pure (c ∷ group)

  abbrev amphora_rule : Str → Str → ServicePort → Str → Subnet → RuleOpts
  amphora_rule ether_type group port protocol subnet =
      prefix_rule ether_type group port.node_port port.node_port protocol subnet.cidr

  -- With Octavia: traffic from the subnet of the load balancer to the port of the nodes.
  unfoldable pub ensure_amphora_rule : LbOpts → List Node → Str → ServicePort → Call B (Unit {0})
  ensure_amphora_rule opts nodes group port = do
    subnet ← seen (wrapped (str "failed to find subnet")) (B.get_subnet opts.subnet_id)
    rules ←
        find_rules B S (str "failed to find security group rules in")
          (amphora_rule [] group port port.protocol subnet)
    elim rules [
      | _ ∷ _ ↦ pure tt
      | [] ↦
          seen (wrapped (str "failed to create rule for security group")) (
            B.create_rule (
              amphora_rule (str "IPv4") group port (to_rule_protocol B.cloud.to_lower port.protocol)
                subnet))
          >>= λ _. apply_node_security_group B S nodes group
    ]

  unfoldable pub ensure_port_rules : LbOpts → List Node → Str → List ServicePort → Call B (Unit {0})
  ensure_port_rules opts nodes group [] = pure tt
  ensure_port_rules opts nodes group (port ∷ ports) =
      (if opts.use_octavia
        then ensure_amphora_rule opts nodes group port
        else ensure_all_node_rules B S (str "Error finding rules for remote group id") group port
            opts.node_security_group_ids)
      >>= λ _. ensure_port_rules opts nodes group ports

  unfoldable pub ensure_group :
      Str → Service → List Node → LoadBalancer → LbOpts → Call B (Unit {0})
  ensure_group cluster_name service nodes loadbalancer opts = do
    ranges ← lift (
        or_failed (str "failed to get source ranges for loadbalancer service")
          (get_load_balancer_source_ranges N service))
    found ← seen or_no_group (B.group_id_from_name (get_security_group_name service))
    group ←
        lb_group_or_new opts.use_octavia cluster_name service (string_slice N ranges) loadbalancer
          found
    ensure_port_rules opts nodes group service.ports

  abbrev pub needs_groups : LbOpts → Bool
  needs_groups opts = opts.node_security_group_ids == [] && not opts.use_octavia

  unfoldable pub ensure_ported_group :
      Str → Service → List Node → LoadBalancer → Method B (Unit {0})
  ensure_ported_group cluster_name service nodes loadbalancer l =
      with_ports B service.ports
        (call B (ensure_group cluster_name service nodes loadbalancer l.opts)) l

  -- `ensureSecurityGroup`
  unfoldable pub ensure_security_group :
      Str → Service → List Node → LoadBalancer → Method B (Unit {0})
  ensure_security_group cluster_name service nodes loadbalancer l =
      ((if needs_groups l.opts then read_node_security_groups B S nodes else pure tt) >>= λ _.
      ensure_ported_group cluster_name service nodes loadbalancer)
        l
