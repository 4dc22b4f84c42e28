-- ===== src/OpenStack/Routes/Delete.antt =====
-- `DeleteRoute` of openstack_routes.go.
use cpo.Base.{
  ℕ, suc, ◌-◌, ◌==◌, Bool, true, false, ◌&&◌, ◌||◌, Option, none, some, List, [], ◌∷◌, Str,
  if◌then◌else◌, length, get_elem?, set, take, nat_eq, list_eq,
}
use mathlib.Core.Option
use cpo.Exec.{Exec, ◌>>=◌, pure}
use cpo.OpenStack.Api.{Error, Route, Router, Port, AddressPair, Cloud}
use cpo.OpenStack.Servers.{get_address_by_name}
use cpo.OpenStack.Routes.Unwind.{
  Body, call, disarm, deferred, with_caller, update_routes, update_allowed_address_pairs,
}
use cpo.OpenStack.Routes.Ports.{Routes, get_port_id_by_ip, get_port_by_id}
use cpo.OpenStack.Routes.Create.{NodeRoute}

-- The condition of the loop that looks for the route.
abbrev pub is_route : NodeRoute → Str → Route → Bool
is_route route addr item =
    item.destination_cidr == route.destination_cidr
    && (item.next_hop == addr || (route.blackhole && item.next_hop == route.target_node))

-- `index`, with `none` for -1.
abbrev pub find_index {ℓ} : {A : Type ℓ} → (A → Bool) → List A → Option ℕ
find_index p [] = none
find_index p (x ∷ xs) = let rest = Option.map suc (find_index p xs) in if p x then some 0 else rest

-- `l[index] = l[len(l)-1]` writes to the array that the slice shares with the router or the port
-- that it was read from: both see the result.
abbrev pub write_last {ℓ} : {A : Type ℓ} → List A → ℕ → List A
write_last l index = elim (get_elem? l (length l - 1)) [ none ↦ l | some x ↦ set l index x ]

-- `l[:len(l)-1]`
abbrev pub shorten {ℓ} : {A : Type ℓ} → List A → List A
shorten l = take (length l - 1) l

module _ (C : Cloud) where
  unfoldable pub delete_pair_at : Port → ℕ → Body C (Unit {0})
  delete_pair_at port index = do
    let written = record port {
      allowed_address_pairs = write_last port.allowed_address_pairs index;
    }
    unwind ← call C (update_allowed_address_pairs C written (shorten written.allowed_address_pairs))
    deferred C unwind (disarm C)

  unfoldable pub delete_pair : Str → Port → Body C (Unit {0})
  delete_pair cidr port =
      elim (find_index (λ (p : AddressPair). p.ip_address == cidr) port.allowed_address_pairs) [
        | none ↦ disarm C
        | some index ↦ delete_pair_at port index
      ]

  -- From "get the port of addr on target node" on.
  unfoldable pub delete_pairs : NodeRoute → Str → Body C (Unit {0})
  delete_pairs route addr = do
    port_id ← call C (get_port_id_by_ip C route.target_node addr)
    port ← call C (get_port_by_id C port_id)
    delete_pair route.destination_cidr port

  -- The write, the update and what follows it; `blackhole` is the route's flag.
  unfoldable pub delete_as : Bool → NodeRoute → Str → Router → ℕ → Body C (Unit {0})
  delete_as blackhole route addr router index = do
    let written = record router { routes = write_last router.routes index }
    unwind ← call C (update_routes C written (shorten written.routes))
    if blackhole then pure tt else deferred C unwind (delete_pairs route addr)

  unfoldable pub delete_at : NodeRoute → Str → Router → ℕ → Body C (Unit {0})
  unfolding delete_as
  delete_at route addr router index = delete_as route.blackhole route addr router index

  unfoldable pub delete_found : NodeRoute → Str → Router → Option ℕ → Body C (Unit {0})
  delete_found route addr router none = pure tt
  delete_found route addr router (some index) = delete_at route addr router index

  -- A blackhole route has no node: its address is the empty text.
  unfoldable pub address_as : Bool → Routes → NodeRoute → Body C Str
  address_as true r route = pure []
  address_as false r route = call C (
      get_address_by_name C route.target_node (C.is_cidr_v6 route.destination_cidr)
        r.networking_opts)

  unfoldable pub delete_body : Routes → NodeRoute → Body C (Unit {0})
  delete_body r route = do
    addr ← address_as route.blackhole r route
    router ← call C (C.get_router r.router_id)
    delete_found route addr router (find_index (is_route route addr) router.routes)

  unfoldable pub delete_route : Routes → NodeRoute → Exec Error C.State (Unit {0})
  unfolding delete_body
  delete_route r route = with_caller C (delete_body r route)
