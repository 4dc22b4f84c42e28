-- ===== src/OpenStack/Servers.antt =====
-- Servers and their addresses: openstack.go, and pkg/apis/core/v1/helper/helpers.go.
pub mod Addresses
pub mod Distinct
use cpo.Base.{
  ℕ, suc, ◌==◌, Bool, true, false, not, ◌&&◌, ◌||◌, Option, none, some, List, [], ◌∷◌, ◌++◌, Str,
  str, if◌then◌else◌, ltb, length, nat_eq, list_eq,
}
use cpo.Exec.{Result, ok, err, Exec, ◌>>=◌, ◌>>◌, pure, raise, lift}
use cpo.OpenStack.Api.{
  Error, not_found, multiple_results, no_address_found, ipv6_support_disabled, Pages, done, page,
  fail, Server, ServerAddress, Interface, Cloud,
}

pub data AddressType : Type 0 where
  internal_ip external_ip host_name : AddressType

abbrev pub type_eq : AddressType → AddressType → Bool
type_eq internal_ip internal_ip = true
type_eq external_ip external_ip = true
type_eq host_name host_name = true
type_eq _ _ = false

pub record NodeAddress : Type 0 where
  pub kind : AddressType
  pub address : Str

pub record NetworkingOpts : Type 0 where
  pub ipv6_support_disabled : Bool
  pub public_network_name : Str
  pub internal_network_name : Str

-- `isIPv6 == needIPv6`
abbrev pub family : Bool → Bool → Bool
family true b = b
family false b = not b

abbrev pub same_address : NodeAddress → NodeAddress → Bool
same_address a b = a.address == b.address && type_eq a.kind b.kind

-- The loop over the present addresses: the variable `exists`.
abbrev pub address_exists : List NodeAddress → NodeAddress → Bool
address_exists [] add = false
address_exists (x ∷ xs) add = same_address x add || address_exists xs add

-- `AddToNodeAddresses` for one address.
unfoldable pub add_to_node_addresses : List NodeAddress → NodeAddress → List NodeAddress
add_to_node_addresses addrs add = if address_exists addrs add then addrs else addrs ++ add ∷ []

-- `getServerByName` reads the pages until a second server is seen.
unfoldable pub collect_servers : List Server → Pages Server → Result Error (List Server)
collect_servers acc done = ok acc
collect_servers acc (fail e) = err e
collect_servers acc (page s rest) =
    let next = acc ++ s in
    let more = collect_servers next rest in
    if ltb 1 (length next) then err multiple_results else more

abbrev pub first_server : List Server → Result Error Server
first_server [] = err not_found
first_server (s ∷ _) = ok s

-- `getAttachedInterfacesByID` reads all pages.
unfoldable pub collect_interfaces : List Interface → Pages Interface → Result Error (List Interface)
collect_interfaces acc done = ok acc
collect_interfaces acc (fail e) = err e
collect_interfaces acc (page s rest) = collect_interfaces (acc ++ s) rest

-- The type of an address in a network; `none` where it is ignored.
unfoldable pub address_type : NetworkingOpts → Str → ServerAddress → Option AddressType
address_type opts network props =
    if props.ip_type == str "floating" || network == opts.public_network_name
    then some external_ip
    else if opts.internal_network_name == [] || network == opts.internal_network_name
    then some internal_ip
    else none

-- `if address != "" { AddToNodeAddresses(...) }`
unfoldable pub add_set : Bool → AddressType → Str → List NodeAddress → List NodeAddress
add_set enabled t address addrs =
    if not (address == []) && enabled
    then add_to_node_addresses addrs (record { kind = t; address = address })
    else addrs

module _ (C : Cloud) where
  unfoldable pub get_server_by_name : Str → Exec Error C.State Server
  get_server_by_name name s =
      let (pages, s') = C.list_servers (some name) s in
      (elim (collect_servers [] pages) [ err e ↦ err e | ok l ↦ first_server l ], s')

  unfoldable pub get_attached_interfaces_by_id : Str → Exec Error C.State (List Interface)
  get_attached_interfaces_by_id id s =
      let (pages, s') = C.list_interfaces id s in (collect_interfaces [] pages, s')

  -- One round of the inner loop of `nodeAddresses`.
  unfoldable pub add_props :
      NetworkingOpts → Str → List NodeAddress → ServerAddress → List NodeAddress
  add_props opts network addrs props = elim (address_type opts network props) [
    | none ↦ addrs
    | some t ↦
        if not (C.is_ipv6 props.addr && opts.ipv6_support_disabled)
        then add_to_node_addresses addrs (record { kind = t; address = props.addr })
        else addrs
  ]

  unfoldable pub add_list :
      NetworkingOpts → Str → List NodeAddress → List ServerAddress → List NodeAddress
  add_list opts network addrs [] = addrs
  add_list opts network addrs (p ∷ ps) = add_list opts network (add_props opts network addrs p) ps

  unfoldable pub add_networks :
      NetworkingOpts → List NodeAddress → List (Str × List ServerAddress) → List NodeAddress
  add_networks opts addrs [] = addrs
  add_networks opts addrs ((network, l) ∷ ns) = add_networks opts (add_list opts network addrs l) ns

  -- `nodeAddresses`. A failure to decode the addresses of the server is an API error.
  unfoldable pub node_addresses : Server → NetworkingOpts → Result Error (List NodeAddress)
  node_addresses srv opts = elim srv.addresses [
    | none ↦ err (Error.api (str "decode"))
    | some addresses ↦ ok (
        add_set true host_name srv.hostname (
          add_set (not opts.ipv6_support_disabled) external_ip srv.access_ipv6
            (add_set true external_ip srv.access_ipv4 (add_networks opts [] addresses))))
  ]

  -- One of the two loops of `getAddressByName`: the first address of the type and family.
  unfoldable pub first_address : AddressType → Bool → List NodeAddress → Option Str
  first_address t need_ipv6 [] = none
  first_address t need_ipv6 (a ∷ addrs) =
      if type_eq a.kind t && family (C.is_ipv6 a.address) need_ipv6
      then some a.address
      else first_address t need_ipv6 addrs

  unfoldable pub pick_address : Bool → List NodeAddress → Result Error Str
  pick_address need_ipv6 [] = err no_address_found
  pick_address need_ipv6 (a ∷ addrs) = elim (first_address internal_ip need_ipv6 (a ∷ addrs)) [
    | some x ↦ ok x
    | none ↦ elim (first_address external_ip need_ipv6 (a ∷ addrs)) [
      | some x ↦ ok x
      | none ↦ err no_address_found
    ]
  ]

  unfoldable pub get_address_by_name : Str → Bool → NetworkingOpts → Exec Error C.State Str
  get_address_by_name name need_ipv6 opts =
      if need_ipv6 && opts.ipv6_support_disabled then raise Error.ipv6_support_disabled else do
        srv ← get_server_by_name name
        addrs ← lift (node_addresses srv opts)
        lift (pick_address need_ipv6 addrs)
