-- ===== src/OpenStack/Servers/Distinct.antt =====
-- `nodeAddresses` returns no address twice.
use mathlib.Core.Path.{subst}
use cpo.Base.{
  ◌≡◌, refl, inl, inr, ◌==◌, Bool, true, false, not, ◌&&◌, ◌||◌, List, [], ◌∷◌, ◌++◌, Str, arith,
  str_eq_iff, Bool-cases, Option-cases, nat_eq, list_eq,
}
use cpo.Exec.{ok-injective, ok, err}
use cpo.OpenStack.Api.{Server, ServerAddress, Cloud}
use cpo.OpenStack.Servers.{
  AddressType, address_type, internal_ip, external_ip, host_name, NodeAddress, NetworkingOpts,
  type_eq, address_exists, same_address, add_to_node_addresses, add_props, add_list, add_networks,
  add_set, node_addresses,
}

-- No two entries have both the type and the address in common.
abbrev pub IsDistinct : List NodeAddress → Type 0
IsDistinct [] = Unit
IsDistinct (a ∷ addrs) = (address_exists addrs a ≡ false) × IsDistinct addrs

type_eq_sym : (a b : AddressType) → type_eq a b ≡ type_eq b a
type_eq_sym internal_ip internal_ip = refl
type_eq_sym _ _ = ground arith

same_address_sym : (a b : NodeAddress) → same_address a b ≡ same_address b a
same_address_sym a b = ground (
  arith,
  type_eq_sym a.kind b.kind,
  str_eq_iff a.address b.address,
  str_eq_iff b.address a.address,
)

address_exists-snoc :
    (addrs : List NodeAddress) (x a : NodeAddress)
    → address_exists (addrs ++ x ∷ []) a ≡ (address_exists addrs a || same_address x a)
address_exists-snoc [] x a = ground arith
address_exists-snoc (y ∷ addrs) x a = ground (arith, address_exists-snoc addrs x a)

snoc-IsDistinct :
    (addrs : List NodeAddress) (x : NodeAddress)
    → IsDistinct addrs
    → address_exists addrs x ≡ false
    → IsDistinct (addrs ++ x ∷ [])
snoc-IsDistinct [] x d h = (refl, tt)
snoc-IsDistinct (y ∷ addrs) x d h = (
  ground (arith, address_exists-snoc addrs x y, same_address_sym x y),
  snoc-IsDistinct addrs x d.1 (ground arith),
)

add-IsDistinct :
    (addrs : List NodeAddress) (x : NodeAddress)
    → IsDistinct addrs
    → IsDistinct (add_to_node_addresses addrs x)
unfolding add_to_node_addresses
add-IsDistinct addrs x d = elim (Bool-cases (address_exists addrs x)) [
  | inl e ↦ rw e d
  | inr e ↦ rw e (snoc-IsDistinct addrs x d e)
]

add_set-IsDistinct :
    (enabled : Bool) (t : AddressType) (a : Str) (addrs : List NodeAddress)
    → IsDistinct addrs
    → IsDistinct (add_set enabled t a addrs)
unfolding add_set
add_set-IsDistinct enabled t a addrs d = elim (Bool-cases (not (a == []) && enabled)) [
  | inl e ↦ rw e (add-IsDistinct addrs _ d)
  | inr e ↦ rw e d
]

module _ (C : Cloud) (opts : NetworkingOpts) where
  add_props-IsDistinct :
      (network : Str) (addrs : List NodeAddress) (p : ServerAddress)
      → IsDistinct addrs
      → IsDistinct (add_props C opts network addrs p)
  unfolding add_props
  add_props-IsDistinct network addrs p d = elim (Option-cases (address_type opts network p)) [
    | inl e ↦ rw (e, add_props) d
    | inr (t, e) ↦
        rw (e, add_props)
          (elim (Bool-cases (not (C.is_ipv6 p.addr && opts.ipv6_support_disabled))) [
            | inl f ↦ rw f (add-IsDistinct addrs _ d)
            | inr f ↦ rw f d
          ])
  ]

  add_list-IsDistinct :
      (network : Str) (addrs : List NodeAddress) (l : List ServerAddress)
      → IsDistinct addrs
      → IsDistinct (add_list C opts network addrs l)
  unfolding add_list
  add_list-IsDistinct network addrs [] d = d
  add_list-IsDistinct network addrs (p ∷ l) d =
      add_list-IsDistinct network (add_props C opts network addrs p) l
        (add_props-IsDistinct network addrs p d)

  add_networks-IsDistinct :
      (addrs : List NodeAddress) (ns : List (Str × List ServerAddress))
      → IsDistinct addrs
      → IsDistinct (add_networks C opts addrs ns)
  unfolding add_networks
  add_networks-IsDistinct addrs [] d = d
  add_networks-IsDistinct addrs ((network, l) ∷ ns) d =
      add_networks-IsDistinct (add_list C opts network addrs l) ns
        (add_list-IsDistinct network addrs l d)

  -- The addresses of a node are pairwise different in type or address.
  pub node_addresses-IsDistinct :
      (srv : Server) (addrs : List NodeAddress)
      → node_addresses C srv opts ≡ ok addrs
      → IsDistinct addrs
  unfolding node_addresses
  node_addresses-IsDistinct srv addrs h = elim (Option-cases srv.addresses) [
    | inl e ↦ (let f : err _ ≡ ok addrs = rw (e, node_addresses) at h in cc)
    | inr (ns, e) ↦
        let f : ok _ ≡ ok addrs = rw (e, node_addresses) at h in
        subst IsDistinct (ok-injective _ _ f) (
          add_set-IsDistinct true host_name srv.hostname _ (
            add_set-IsDistinct (not opts.ipv6_support_disabled) external_ip srv.access_ipv6 _ (
              add_set-IsDistinct true external_ip srv.access_ipv4 _
                (add_networks-IsDistinct [] ns tt))))
  ]
