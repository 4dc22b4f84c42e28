-- ===== src/OpenStack/Lbaas/Api.antt =====
-- What openstack_loadbalancer.go asks of the load-balancing and the network service (gophercloud) and
-- of k8s.io/apimachinery: the fields of a record over the state of the cloud, like OpenStack/Api.
use cpo.Base.{ℕ, Bool, Option, List, Str}
use cpo.Exec.{Exec}
use cpo.OpenStack.Api.{Error, Cloud}
use cpo.OpenStack.Lbaas.Services.{Service}
use cpo.Strings.Decimal.{ℤ}

-- An error: one of the program's own values, a 404 of a service, the one for a name that nothing has
-- (`gophercloud.ErrResourceNotFound`), the timeout of package wait, another answer of a service, or
-- `fmt.Errorf`, with the text of its format up to the first parameter. `panicked` is no error value: an index
-- is out of range and the call panics.
pub data Fault : Type 0 where
  known : Error → Fault
  missing no_such_resource timeout panicked : Fault
  service failed : Str → Fault

-- A listing is read page by page; the next page may fail.
pub data Pages (A : Type 0) : Type 0 where
  done : Pages A
  page : List A → Pages A → Pages A
  fail : Fault → Pages A

pub record LoadBalancer : Type 0 where
  pub id : Str
  pub name : Str
  pub provisioning_status : Str
  pub vip_port_id : Str
  pub vip_address : Str

pub record LoadBalancerOpts : Type 0 where
  pub name : Str
  pub description : Str
  pub provider : Str
  pub vip_port_id : Str
  pub vip_subnet_id : Str
  pub vip_address : Str

-- `load_balancers` holds the ids of the listener's load balancers.
pub record Listener : Type 0 where
  pub id : Str
  pub protocol : Str
  pub protocol_port : ℕ
  pub conn_limit : ℤ
  pub load_balancers : List Str

-- `x_forwarded_for`: whether `InsertHeaders` asks for the header.
pub record ListenerOpts : Type 0 where
  pub name : Str
  pub protocol : Str
  pub protocol_port : ℕ
  pub conn_limit : ℤ
  pub load_balancer_id : Str
  pub timeout_client_data : Option ℤ
  pub timeout_member_data : Option ℤ
  pub timeout_member_connect : Option ℤ
  pub timeout_tcp_inspect : Option ℤ
  pub x_forwarded_for : Bool

-- `listeners` holds the ids of the pool's listeners.
pub record Pool : Type 0 where
  pub id : Str
  pub monitor_id : Str
  pub listeners : List Str

-- `persistence` is the type of the session persistence.
pub record PoolOpts : Type 0 where
  pub name : Str
  pub protocol : Str
  pub lb_method : Str
  pub listener_id : Str
  pub persistence : Option Str

pub record Member : Type 0 where
  pub id : Str
  pub address : Str
  pub protocol_port : ℕ

pub record MemberOpts : Type 0 where
  pub name : Str
  pub address : Str
  pub protocol_port : ℕ
  pub subnet_id : Str

pub record MonitorOpts : Type 0 where
  pub name : Str
  pub pool_id : Str
  pub kind : Str
  pub delay : ℕ
  pub timeout : ℕ
  pub max_retries : ℕ

pub record FloatingIp : Type 0 where
  pub id : Str
  pub floating_ip : Str
  pub port_id : Str

pub record FloatingIpOpts : Type 0 where
  pub floating_network_id : Str
  pub port_id : Str
  pub description : Str
  pub subnet_id : Str
  pub floating_ip : Str

-- The two filters that the program uses.
pub data FloatingIpFilter : Type 0 where
  by_floating_ip by_port : Str → FloatingIpFilter

pub record Network : Type 0 where
  pub id : Str
  pub is_external : Bool

pub record Subnet : Type 0 where
  pub id : Str
  pub cidr : Str

pub record NetworkPort : Type 0 where
  pub id : Str
  pub security_groups : List Str

pub data PortFilter : Type 0 where
  of_device with_tag : Str → PortFilter

pub record Rule : Type 0 where
  pub id : Str

-- A rule, as it is asked for; a field that is not given is the empty text. The same record is the
-- filter of a listing, where `none` stands for a range that is not given.
pub record RuleOpts : Type 0 where
  pub direction : Str
  pub ether_type : Str
  pub port_range_min : Option ℕ
  pub port_range_max : Option ℕ
  pub protocol : Str
  pub remote_group_id : Str
  pub remote_ip_prefix : Str
  pub security_group_id : Str

-- `wait.Backoff`: the first delay in seconds, the factor in tenths, and the number of steps.
pub record Backoff : Type 0 where
  pub duration : ℕ
  pub factor : ℕ
  pub steps : ℕ

pub record Balancer : Type 1 where
  pub cloud : Cloud
  pub list_load_balancers : Str → Exec Fault cloud.State (List LoadBalancer)
  pub get_load_balancer : Str → Exec Fault cloud.State LoadBalancer
  pub create_load_balancer : LoadBalancerOpts → Exec Fault cloud.State LoadBalancer
  -- the flag asks for a cascade
  pub delete_load_balancer : Str → Bool → Exec Fault cloud.State (Unit {0})
  pub list_listeners : Str → cloud.State → Pages Listener × cloud.State
  pub create_listener : ListenerOpts → Exec Fault cloud.State Listener
  pub update_listener : Str → ℤ → Exec Fault cloud.State (Unit {0})
  pub delete_listener : Str → Exec Fault cloud.State (Unit {0})
  pub list_pools : Str → cloud.State → Pages Pool × cloud.State
  pub create_pool : PoolOpts → Exec Fault cloud.State Pool
  pub delete_pool : Str → Exec Fault cloud.State (Unit {0})
  pub list_members : Str → cloud.State → Pages Member × cloud.State
  pub create_member : Str → MemberOpts → Exec Fault cloud.State Member
  pub delete_member : Str → Str → Exec Fault cloud.State (Unit {0})
  pub create_monitor : MonitorOpts → Exec Fault cloud.State Str
  pub delete_monitor : Str → Exec Fault cloud.State (Unit {0})
  pub list_floating_ips : FloatingIpFilter → cloud.State → Pages FloatingIp × cloud.State
  pub create_floating_ip : FloatingIpOpts → Exec Fault cloud.State FloatingIp
  pub update_floating_ip : Str → Str → Exec Fault cloud.State FloatingIp
  pub delete_floating_ip : Str → Exec Fault cloud.State (Unit {0})
  pub list_networks : cloud.State → Pages Network × cloud.State
  pub list_subnets : Str → Exec Fault cloud.State (List Subnet)
  pub get_subnet : Str → Exec Fault cloud.State Subnet
  pub list_ports : PortFilter → Exec Fault cloud.State (List NetworkPort)
  pub get_network_port : Str → Exec Fault cloud.State NetworkPort
  pub update_port_groups : Str → List Str → Exec Fault cloud.State (Unit {0})
  pub add_tag : Str → Str → Exec Fault cloud.State (Unit {0})
  pub delete_tag : Str → Str → Exec Fault cloud.State (Unit {0})
  pub group_id_from_name : Str → Exec Fault cloud.State Str
  -- name and description
  pub create_group : Str → Str → Exec Fault cloud.State Str
  pub delete_group : Str → Exec Fault cloud.State (Unit {0})
  pub list_rules : RuleOpts → cloud.State → Pages Rule × cloud.State
  pub create_rule : RuleOpts → Exec Fault cloud.State (Unit {0})
  pub delete_rule : Str → Exec Fault cloud.State (Unit {0})
  -- `wait.ExponentialBackoff`, with a condition that may also change variables of its caller
  pub exponential_backoff :
      {L : Type 0}
      → Backoff
      → Exec Fault (cloud.State × L) Bool
      → Exec Fault (cloud.State × L) (Unit {0})
  -- `cloudprovider.DefaultLoadBalancerName`
  pub default_load_balancer_name : Service → Str
