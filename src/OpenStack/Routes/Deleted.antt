-- ===== src/OpenStack/Routes/Deleted.antt =====
-- `DeleteRoute` removes one entry of the route; what an error leaves is what the unwinder sends.
use mathlib.Core.Path.{subst, subst₂}
use cpo.Base.{
  ℕ, ◌≡◌, refl, sym, ◌∙◌, ap, ◌⊎◌, inl, inr, Bool, true, false, Option, none, some, List, [], ◌==◌,
  Str, Option-cases, nat_eq, list_eq,
}
use cpo.Exec.{Result, ok, err, Exec, continue, ◌>>=◌}
use cpo.OpenStack.Api.{Error, Route, Router, Port, AddressPair, Cloud}
use cpo.OpenStack.Servers.{NetworkingOpts, get_address_by_name}
use cpo.OpenStack.Routes.Unwind.{Frame, Body, call}
use cpo.OpenStack.Routes.Create.{NodeRoute}
use cpo.OpenStack.Routes.Delete.{
  is_route, find_index, write_last, shorten, delete_pair_at, delete_pair, delete_pairs, delete_as,
  delete_at, delete_found, address_as, delete_route,
}
use cpo.OpenStack.Routes.Laws.{
  Neutron, get_address_by_name-Keeps, get_port_id_by_ip-Keeps, get_port_by_id-Keeps,
}
use cpo.OpenStack.Routes.PairUpdates.{update_pairs-Settles}
use cpo.OpenStack.Routes.Replace.{Refused, Replaced, Updated, replace-Replaced, update-Replaced}
use cpo.OpenStack.Routes.Settles.{Settles, disarm-Settles, call-Settles}

module _ (C : Cloud) (routes : Str → C.State → List Route) (laws : Neutron C routes)
    (id : Str) where
  delete_pair-Settles : (cidr : Str) (port : Port) → Settles C (routes id) (delete_pair C cidr port)
  unfolding delete_pair delete_pair_at
  delete_pair-Settles cidr port =
      elim (Option-cases
        (find_index (λ (p : AddressPair). p.ip_address == cidr) port.allowed_address_pairs)) [
          | inl e ↦ rw (e, delete_pair) (disarm-Settles C (routes id))
          | inr (index, e) ↦ rw (e, delete_pair) (update_pairs-Settles C routes laws id _ _)
        ]

  delete_pairs-Settles :
      (route : NodeRoute) (addr : Str) → Settles C (routes id) (delete_pairs C route addr)
  unfolding delete_pairs
  delete_pairs-Settles route addr =
      call-Settles C (routes id) _ _
        (get_port_id_by_ip-Keeps C routes laws id route.target_node addr)
        λ port_id _ _.
          call-Settles C (routes id) _ _ (get_port_by_id-Keeps C routes laws id port_id)
            λ port _ _. delete_pair-Settles route.destination_cidr port

module _ (C : Cloud) (routes : Str → C.State → List Route) (laws : Neutron C routes) (id : Str)
    (opts : NetworkingOpts) where
  -- The address that the entries are compared with: none for a blackhole route, else that of the node in the
  -- family of the destination.
  abbrev pub IsAddress : Bool → NodeRoute → C.State → Str → Type 0
  IsAddress true route before addr = addr ≡ []
  IsAddress false route before addr =
      (get_address_by_name C route.target_node (C.is_cidr_v6 route.destination_cidr) opts before).0
      ≡ ok addr

  -- What a call for a route may do to the routes of the router.
  abbrev pub Deletes : NodeRoute → C.State → Result Error (Unit {0}) → C.State → Type 0
  Deletes route before (ok _) after =
      (addr : Str) × IsAddress route.blackhole route before addr
      × (((find_index (is_route route addr) (routes id before) ≡ none)
            × (routes id after ≡ routes id before))
          ⊎ ((index : ℕ) × (find_index (is_route route addr) (routes id before) ≡ some index)
              × (routes id after ≡ shorten (write_last (routes id before) index))))
  Deletes route before (err _) after =
      (routes id after ≡ routes id before)
      ⊎ ((addr : Str) × IsAddress route.blackhole route before addr
          × (index : ℕ) × (find_index (is_route route addr) (routes id before) ≡ some index)
          × (route.blackhole ≡ false)
          × ((routes id after ≡ write_last (routes id before) index)
              ⊎ ((routes id after ≡ shorten (write_last (routes id before) index))
                  × Refused C id (write_last (routes id before) index) after)))

  to_deletes :
      (route : NodeRoute) (addr : Str) (before s : C.State) (j : Str) (held : List Route)
      (index : ℕ)
      → IsAddress route.blackhole route before addr
      → j ≡ id
      → routes id s ≡ routes id before
      → held ≡ routes id before
      → find_index (is_route route addr) held ≡ some index
      → route.blackhole ≡ false
      → (res : Result Error (Unit {0})) (after : C.State)
      → Replaced C routes j
          (routes j s)
          (write_last held index)
          (shorten (write_last held index))
          res
          after
      → Deletes route before res after
  to_deletes route addr before s j held index hop named same reads at live (ok _) after h = (
    addr,
    hop,
    inr (
      index,
      subst (λ l. find_index (is_route route addr) l ≡ some index) reads at,
      ap (λ i. routes i after) (sym named) ∙ h ∙ ap (λ l. shorten (write_last l index)) reads,
    ),
  )
  to_deletes route addr before s j held index hop named same reads at live (err _) after (inl h) =
      inl (ap (λ i. routes i after) (sym named) ∙ h ∙ ap (λ i. routes i s) named ∙ same)
  to_deletes route addr before s j held index hop named same reads at live (err _) after
        (inr (inl h)) =
      inr (
        addr,
        hop,
        index,
        subst (λ l. find_index (is_route route addr) l ≡ some index) reads at,
        live,
        inl (ap (λ i. routes i after) (sym named) ∙ h ∙ ap (λ l. write_last l index) reads),
      )
  to_deletes route addr before s j held index hop named same reads at live (err _) after
        (inr (inr (set, h))) =
      inr (
        addr,
        hop,
        index,
        subst (λ l. find_index (is_route route addr) l ≡ some index) reads at,
        live,
        inr (
          ap (λ i. routes i after) (sym named) ∙ set ∙ ap (λ l. shorten (write_last l index)) reads,
          subst₂ (λ i l. Refused C i (write_last l index) after) named reads h,
        ),
      )

  -- A call for a blackhole route is over with the update.
  to_deletes_blackhole :
      (route : NodeRoute) (addr : Str) (before s : C.State) (j : Str) (held : List Route)
      (index : ℕ)
      → IsAddress route.blackhole route before addr
      → j ≡ id
      → routes id s ≡ routes id before
      → held ≡ routes id before
      → find_index (is_route route addr) held ≡ some index
      → (res : Result Error (Unit {0})) (after : C.State)
      → Updated C routes j (routes j s) (shorten (write_last held index)) res after
      → Deletes route before res after
  to_deletes_blackhole route addr before s j held index hop named same reads at (ok _) after h = (
    addr,
    hop,
    inr (
      index,
      subst (λ l. find_index (is_route route addr) l ≡ some index) reads at,
      ap (λ i. routes i after) (sym named) ∙ h ∙ ap (λ l. shorten (write_last l index)) reads,
    ),
  )
  to_deletes_blackhole route addr before s j held index hop named same reads at (err _) after h =
      inl (ap (λ i. routes i after) (sym named) ∙ h ∙ ap (λ i. routes i s) named ∙ same)

  module _ (route : NodeRoute) (addr : Str) (before s : C.State) (router : Router)
      (hop : IsAddress route.blackhole route before addr) (same : routes id s ≡ routes id before)
      (named : router.id ≡ id) (reads : router.routes ≡ routes id before) where
    delete_as-Deletes :
        (blackhole : Bool) (index : ℕ)
        → route.blackhole ≡ blackhole
        → find_index (is_route route addr) router.routes ≡ some index
        → let (res, f) =
            delete_as C blackhole route addr router index (record { armed = true; world = s }) in
          Deletes route before res f.world
    unfolding delete_as
    delete_as-Deletes true index b e =
        to_deletes_blackhole route addr before s router.id router.routes index hop named same reads
          e _ _
          (update-Replaced C routes laws (record router { routes = write_last router.routes index })
            _ s)
    delete_as-Deletes false index b e =
        to_deletes route addr before s router.id router.routes index hop named same reads e b _ _ (
          replace-Replaced C routes laws (record router { routes = write_last router.routes index })
            _ (delete_pairs C route addr) s
            (delete_pairs-Settles C routes laws router.id route addr))

    delete_found-Deletes :
        (found : Option ℕ)
        → find_index (is_route route addr) router.routes ≡ found
        → let (res, f) =
            delete_found C route addr router found (record { armed = true; world = s }) in
          Deletes route before res f.world
    unfolding delete_found delete_at
    delete_found-Deletes none e =
        (addr, hop, inl (subst (λ l. find_index (is_route route addr) l ≡ none) reads e, same))
    delete_found-Deletes (some index) e = delete_as-Deletes route.blackhole index refl e

  after_router_read :
      (route : NodeRoute) (addr : Str) (before s : C.State)
      → IsAddress route.blackhole route before addr
      → routes id s ≡ routes id before
      → (u : Result Error Router) → (C.get_router id s).0 ≡ u
      → let (res, f) =
          continue u
            (λ router.
              delete_found C route addr router (find_index (is_route route addr) router.routes))
            (record { armed = true; world = (C.get_router id s).1 }) in
        Deletes route before res f.world
  after_router_read route addr before s hop same (err _) e =
      inl (laws.get_router_keeps id s id ∙ same)
  after_router_read route addr before s hop same (ok router) e =
      let (named, reads) = laws.get_router_reads id s router e in
      delete_found-Deletes route addr before (C.get_router id s).1 router hop
        (laws.get_router_keeps id s id ∙ same) named (reads ∙ same) _ refl

  module _ (route : NodeRoute) where
    -- A call to delete a route, for the address that is found for its node or without one for a blackhole route,
    -- that ends well leaves a router that had no entry of the route as it was, and else removes the first entry
    -- of it, with the last entry in its place. A call that returns an error leaves the routes as they were, or,
    -- for a route of a node, with the last entry written over the entry of the route and nothing removed, or
    -- with the entry removed if the last call is that of the unwinder and the services refuse it.
    pub delete_route-Deletes :
        (s : C.State)
        → let (res, s') =
            delete_route C (record { router_id = id; networking_opts = opts }) route s in
          Deletes route s res s'
    unfolding delete_route address_as
    delete_route-Deletes s = by_flag route.blackhole refl
      where
        get_address : Exec Error C.State Str
        get_address =
            get_address_by_name C route.target_node (C.is_cidr_v6 route.destination_cidr) opts

        same : routes id (get_address s).1 ≡ routes id s
        same = (get_address_by_name-Keeps C routes laws id _ _ opts).at s

        look : Str → Body C (Unit {0})
        look addr = call C (C.get_router id) >>= λ router.
            delete_found C route addr router (find_index (is_route route addr) router.routes)

        by_address :
            (u : Result Error Str)
            → route.blackhole ≡ false
            → (get_address s).0 ≡ u
            → let (res, f) =
                continue {S = Frame C} u look
                  (record { armed = true; world = (get_address s).1 }) in
              Deletes route s res f.world
        by_address (err _) b e = inl same
        by_address (ok addr) b e =
            after_router_read route addr s (get_address s).1 (rw (b, IsAddress) e) same _ refl

        by_flag :
            (b : Bool)
            → route.blackhole ≡ b
            → let (res, f) =
                (address_as C b (record { router_id = id; networking_opts = opts }) route >>= look)
                  (record { armed = true; world = s }) in
              Deletes route s res f.world
        by_flag true b = after_router_read route [] s s (rw (b, IsAddress) refl) refl _ refl
        by_flag false b = by_address (get_address s).0 b refl
