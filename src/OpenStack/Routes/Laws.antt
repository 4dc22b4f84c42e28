-- ===== src/OpenStack/Routes/Laws.antt =====
-- What the routes code relies on: the documented behaviour of the Neutron calls, for the routes
-- that a router has. Between two calls nobody else changes the router.
use cpo.Base.{◌≡◌, refl, Option, some, List, Str, Bool, Bool-cases, inl, inr, ◌&&◌}
use cpo.Exec.{Result, ok, err, lift}
use cpo.Exec.Keeps.{Keeps, bind-Keeps}
use cpo.OpenStack.Api.{Error, Route, Router, AddressPair, Cloud}
use cpo.OpenStack.Servers.{
  NetworkingOpts, get_server_by_name, get_attached_interfaces_by_id, node_addresses,
  get_address_by_name,
}
use cpo.OpenStack.Routes.Ports.{get_port_id_by_ip, get_port_by_id}

-- `routes id s` is what the router `id` holds in the state `s`.
pub record Neutron (C : Cloud) (routes : Str → C.State → List Route) : Type 0 where
  -- a listing or a read changes no routes
  pub list_servers_keeps :
      (n : Option Str) (s : C.State) (id : Str) → routes id (C.list_servers n s).1 ≡ routes id s
  pub list_interfaces_keeps :
      (n : Str) (s : C.State) (id : Str) → routes id (C.list_interfaces n s).1 ≡ routes id s
  pub get_router_keeps :
      (n : Str) (s : C.State) (id : Str) → routes id (C.get_router n s).1 ≡ routes id s
  pub get_port_keeps :
      (n : Str) (s : C.State) (id : Str) → routes id (C.get_port n s).1 ≡ routes id s
  -- nor does an update of a port
  pub update_port_keeps :
      (n : Str) (ps : List AddressPair) (s : C.State) (id : Str)
      → routes id (C.update_port n ps s).1 ≡ routes id s
  -- a read returns the router
  pub get_router_reads :
      (n : Str) (s : C.State) (r : Router)
      → (C.get_router n s).0 ≡ ok r
      → (r.id ≡ n) × (r.routes ≡ routes n s)
  -- an update that is accepted sets the routes, and one that is refused leaves them
  pub update_router_sets :
      (n : Str) (rs : List Route) (s : C.State)
      → (C.update_router n rs s).0 ≡ ok tt
      → routes n (C.update_router n rs s).1 ≡ rs
  pub update_router_refused :
      (n : Str) (rs : List Route) (s : C.State) (e : Error)
      → (C.update_router n rs s).0 ≡ err e
      → routes n (C.update_router n rs s).1 ≡ routes n s

module _ (C : Cloud) (routes : Str → C.State → List Route) (laws : Neutron C routes)
    (id : Str) where
  lift-Keeps : {A : Type 0} (r : Result Error A) → Keeps (routes id) (lift r)
  lift-Keeps r = record { at = λ s. refl }

  get_server_by_name-Keeps : (name : Str) → Keeps (routes id) (get_server_by_name C name)
  unfolding get_server_by_name
  get_server_by_name-Keeps name = record { at = λ s. laws.list_servers_keeps (some name) s id }

  get_attached-Keeps : (n : Str) → Keeps (routes id) (get_attached_interfaces_by_id C n)
  unfolding get_attached_interfaces_by_id
  get_attached-Keeps n = record { at = λ s. laws.list_interfaces_keeps n s id }

  pub get_address_by_name-Keeps :
      (name : Str) (need : Bool) (opts : NetworkingOpts)
      → Keeps (routes id) (get_address_by_name C name need opts)
  unfolding get_address_by_name
  get_address_by_name-Keeps name need opts =
      elim (Bool-cases (need && opts.ipv6_support_disabled)) [
        | inl e ↦ rw (e, get_address_by_name) (record { at = λ s. refl })
        | inr e ↦
            rw (e, get_address_by_name)
              (bind-Keeps _ _ (get_server_by_name-Keeps name) λ srv.
                bind-Keeps _ _ (lift-Keeps (node_addresses C srv opts)) λ addrs. lift-Keeps _)
      ]

  pub get_port_id_by_ip-Keeps : (node ip : Str) → Keeps (routes id) (get_port_id_by_ip C node ip)
  unfolding get_port_id_by_ip
  get_port_id_by_ip-Keeps node ip =
      bind-Keeps _ _ (get_server_by_name-Keeps node)
        λ srv. bind-Keeps _ _ (get_attached-Keeps srv.id) λ is. lift-Keeps _

  pub get_port_by_id-Keeps : (n : Str) → Keeps (routes id) (get_port_by_id C n)
  unfolding get_port_by_id
  get_port_by_id-Keeps n =
      bind-Keeps (C.get_port n) _ (record { at = λ s. laws.get_port_keeps n s id })
        λ target. lift-Keeps _
