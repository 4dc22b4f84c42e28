-- ===== src/OpenStack/Lbaas/Services.antt =====
-- The Kubernetes objects that openstack_loadbalancer.go is given, and what it reads off them alone:
-- annotations, names, protocols, and the address of a node.
use cpo.Base.{
  ℕ, ◌==◌, Bool, true, false, Option, none, some, List, [], ◌∷◌, ◌++◌, Str, str, if◌then◌else◌,
  take, nat_eq, list_eq,
}
use cpo.Exec.{Result, ok, err}
use cpo.Maps.{Map, get}
use cpo.OpenStack.Api.{Error, no_address_found}
use cpo.OpenStack.Servers.{AddressType, internal_ip, external_ip, type_eq, NodeAddress}
use cpo.Strings.Decimal.{ℤ, atoi}

pub record ServicePort : Type 0 where
  pub protocol : Str
  pub port : ℕ
  pub node_port : ℕ

pub record Service : Type 0 where
  pub uid : Str
  pub namespace : Str
  pub name : Str
  pub annotations : Map Str
  pub ports : List ServicePort
  pub load_balancer_ip : Str
  pub load_balancer_source_ranges : List Str
  pub session_affinity : Str

pub record Node : Type 0 where
  pub name : Str
  pub provider_id : Str
  pub addresses : List NodeAddress

-- `lbaas.opts`; the durations are in seconds.
pub record LbOpts : Type 0 where
  pub use_octavia : Bool
  pub subnet_id : Str
  pub floating_network_id : Str
  pub lb_method : Str
  pub lb_provider : Str
  pub create_monitor : Bool
  pub monitor_delay : ℕ
  pub monitor_timeout : ℕ
  pub monitor_max_retries : ℕ
  pub manage_security_groups : Bool
  pub node_security_group_ids : List Str
  pub internal_lb : Bool

-- The keys of the annotations.
abbrev annotation : Str → Str
annotation name = str "loadbalancer.openstack.org/" ++ name

abbrev pub connection_limit : Str
connection_limit = annotation (str "connection-limit")

abbrev pub floating_network_id : Str
floating_network_id = annotation (str "floating-network-id")

abbrev pub floating_subnet : Str
floating_subnet = annotation (str "floating-subnet")

abbrev pub floating_subnet_id : Str
floating_subnet_id = annotation (str "floating-subnet-id")

abbrev pub internal_load_balancer : Str
internal_load_balancer = str "service.beta.kubernetes.io/openstack-internal-load-balancer"

abbrev pub keep_floating_ip : Str
keep_floating_ip = annotation (str "keep-floatingip")

abbrev pub port_id : Str
port_id = annotation (str "port-id")

abbrev pub proxy_protocol : Str
proxy_protocol = annotation (str "proxy-protocol")

abbrev pub subnet_id : Str
subnet_id = annotation (str "subnet-id")

abbrev pub timeout_client_data : Str
timeout_client_data = annotation (str "timeout-client-data")

abbrev pub timeout_member_connect : Str
timeout_member_connect = annotation (str "timeout-member-connect")

abbrev pub timeout_member_data : Str
timeout_member_data = annotation (str "timeout-member-data")

abbrev pub timeout_tcp_inspect : Str
timeout_tcp_inspect = annotation (str "timeout-tcp-inspect")

abbrev pub x_forwarded_for : Str
x_forwarded_for = annotation (str "x-forwarded-for")

unfoldable pub get_string_from_service_annotation : Service → Str → Str → Str
get_string_from_service_annotation service key default_setting =
    elim (get service.annotations key) [ some value ↦ value | none ↦ default_setting ]

unfoldable pub get_int_from_service_annotation : Service → Str → Option ℤ
unfolding get_string_from_service_annotation
get_int_from_service_annotation service key =
    let int_string = get_string_from_service_annotation service key [] in
    if int_string == [] then none else atoi int_string

-- The annotation must be "true" or "false"; `none` is the error for any other value.
unfoldable pub get_bool_from_service_annotation : Service → Str → Bool → Option Bool
get_bool_from_service_annotation service key default_setting = elim (get service.annotations key) [
  | none ↦ some default_setting
  | some value ↦
      if value == str "true" then some true else if value == str "false" then some false else none
]

-- `original[:255]` where it is longer.
abbrev pub cut_string : Str → Str
cut_string original = take 255 original

unfoldable pub get_load_balancer_name : Str → Service → Str
get_load_balancer_name cluster_name service =
    cut_string (
      str "kube_service_"
      ++ cluster_name
      ++ str "_"
      ++ service.namespace
      ++ str "_"
      ++ service.name)

unfoldable pub get_security_group_name : Service → Str
get_security_group_name service =
    take 255
      (str "lb-sg-" ++ service.uid ++ str "-" ++ service.namespace ++ str "-" ++ service.name)

-- The inner loop of `nodeAddressForLB`.
abbrev pub address_of_type : AddressType → List NodeAddress → Option Str
address_of_type t [] = none
address_of_type t (a ∷ addrs) =
    let rest = address_of_type t addrs in if type_eq a.kind t then some a.address else rest

abbrev pub or_else : Option Str → Result Error Str → Result Error Str
or_else (some a) rest = ok a
or_else none rest = rest

-- The test for no address at all returns what the loops return for it.
abbrev pub lb_address : List NodeAddress → Result Error Str
lb_address [] = err no_address_found
lb_address (a ∷ addrs) =
    or_else (address_of_type internal_ip (a ∷ addrs))
      (or_else (address_of_type external_ip (a ∷ addrs)) (err no_address_found))

unfoldable pub node_address_for_lb : Node → Result Error Str
node_address_for_lb node = lb_address node.addresses
