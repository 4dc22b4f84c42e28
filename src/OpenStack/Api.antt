-- ===== src/OpenStack/Api.antt =====
-- What pkg/cloudprovider/providers/openstack asks of the OpenStack services: the client library
-- gophercloud, which the program does not implement. Its calls are the fields of a record, over a
-- state that holds all that the services know and all that time does to it.
use cpo.Base.{Bool, Option, List, Str}
use cpo.Exec.{Exec}

-- The errors that the program tells apart, and all others of the services with their text.
pub data Error : Type 0 where
  not_found multiple_results no_address_found ipv6_support_disabled no_router_id : Error
  api : Str → Error

-- A listing is read page by page; the next page may fail.
pub data Pages (A : Type 0) : Type 0 where
  done : Pages A
  page : List A → Pages A → Pages A
  fail : Error → Pages A

pub record Route : Type 0 where
  pub destination_cidr : Str
  pub next_hop : Str

pub record Router : Type 0 where
  pub id : Str
  pub routes : List Route

pub record AddressPair : Type 0 where
  pub ip_address : Str

pub record Port : Type 0 where
  pub id : Str
  pub allowed_address_pairs : List AddressPair

pub record FixedIp : Type 0 where
  pub ip_address : Str
  pub subnet_id : Str

pub record Interface : Type 0 where
  pub port_id : Str
  pub fixed_ips : List FixedIp

-- An address of a server in one of its networks: `OS-EXT-IPS:type` and the address.
pub record ServerAddress : Type 0 where
  pub ip_type : Str
  pub addr : Str

-- `addresses` holds the decoded map, in the order of a visit; `none` where it does not decode.
-- `hostname` is `Metadata["hostname"]`, empty where the key is missing.
pub record Server : Type 0 where
  pub id : Str
  pub name : Str
  pub addresses : Option (List (Str × List ServerAddress))
  pub access_ipv4 : Str
  pub access_ipv6 : Str
  pub hostname : Str

-- `list_servers (some name)` lists the servers of exactly that name.
pub record Cloud : Type 1 where
  pub State : Type 0
  pub list_servers : Option Str → State → Pages Server × State
  pub list_interfaces : Str → State → Pages Interface × State
  pub get_router : Str → Exec Error State Router
  pub update_router : Str → List Route → Exec Error State (Unit {0})
  pub get_port : Str → Exec Error State (Option Port)
  pub update_port : Str → List AddressPair → Exec Error State (Unit {0})
  -- `net.ParseIP(s).To4() == nil`, and the same of the address of `net.ParseCIDR(s)`
  pub is_ipv6 : Str → Bool
  pub is_cidr_v6 : Str → Bool
  -- `strings.ToLower`
  pub to_lower : Str → Str
