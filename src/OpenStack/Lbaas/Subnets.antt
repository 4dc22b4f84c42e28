-- ===== src/OpenStack/Lbaas/Subnets.antt =====
-- openstack_loadbalancer.go: the subnet of a load balancer, which the methods keep in the options.
use cpo.Base.{ℕ, ◌==◌, List, [], ◌∷◌, Str, str, if◌then◌else◌, nat_eq, list_eq}
use cpo.Exec.{Result, ok, err, ◌>>=◌, pure, lift}
use cpo.OpenStack.Api.{not_found, FixedIp, Interface}
use cpo.OpenStack.Servers.{get_attached_interfaces_by_id}
use cpo.OpenStack.Lbaas.Api.{Fault, known, Balancer}
use cpo.OpenStack.Lbaas.Calls.{Call, Lbaas, Method, call, seen, wrapped, of_known, known_errors}
use cpo.OpenStack.Lbaas.Services.{
  Service, Node, get_string_from_service_annotation, node_address_for_lb, subnet_id,
}

-- What stands behind the last byte `c`, or the whole text: `strings.LastIndex` and the slice.
abbrev after_mark : ℕ → Str → Str → Str
after_mark c rest [] = rest
after_mark c rest (x ∷ s) = after_mark c (if x == c then s else rest) s

abbrev pub after_last : ℕ → Str → Str
after_last c s = after_mark c s s

-- The two loops over the interfaces and their addresses.
abbrev pub subnet_of_ips : Str → List FixedIp → Result Fault Str → Result Fault Str
subnet_of_ips ip [] rest = rest
subnet_of_ips ip (f ∷ fs) rest =
    let more = subnet_of_ips ip fs rest in if f.ip_address == ip then ok f.subnet_id else more

abbrev pub subnet_of : Str → List Interface → Result Fault Str
subnet_of ip [] = err (known not_found)
subnet_of ip (i ∷ is) = subnet_of_ips ip i.fixed_ips (subnet_of ip is)

module _ (B : Balancer) where
  unfoldable pub get_subnet_id_for_lb : Node → Call B Str
  get_subnet_id_for_lb node = do
    ip_address ← lift (of_known (node_address_for_lb node))
    interfaces ←
        known_errors (get_attached_interfaces_by_id B.cloud (after_last b'/' node.provider_id))
    lift (subnet_of ip_address interfaces)

  abbrev with_subnet : Str → Lbaas B → Lbaas B
  with_subnet id l = record l { opts = record l.opts { subnet_id = id } }

  -- Where no subnet is configured, that of the first node.
  unfoldable pub subnet_of_nodes : List Node → Method B (Unit {0})
  subnet_of_nodes [] l = (ok tt, l)
  subnet_of_nodes (node ∷ nodes) l =
      (call B (seen (wrapped (str "no subnet-id for service")) (get_subnet_id_for_lb node))
          >>= λ id l'. (ok tt, with_subnet id l'))
        l

  unfoldable pub use_subnet : Str → List Node → Method B (Unit {0})
  use_subnet id nodes l = (if id == [] then subnet_of_nodes nodes else pure tt) (with_subnet id l)

  unfoldable pub choose_subnet : Service → List Node → Method B (Unit {0})
  choose_subnet service nodes l =
      use_subnet (get_string_from_service_annotation service subnet_id l.opts.subnet_id) nodes l
