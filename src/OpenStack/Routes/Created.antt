-- ===== src/OpenStack/Routes/Created.antt =====
-- `CreateRoute` adds the route, or leaves the routes as they were.
use mathlib.Core.Path.{subst, subst₂}
use cpo.Base.{
  ◌≡◌, refl, sym, ◌∙◌, ap, ◌⊎◌, inl, inr, Bool, true, false, List, [], ◌∷◌, ◌++◌, Str, Bool-cases,
  if◌then◌else◌,
}
use cpo.Exec.{Result, ok, err, Exec, continue, ◌>>=◌}
use cpo.OpenStack.Api.{Error, Route, Router, Port, Cloud}
use cpo.OpenStack.Servers.{NetworkingOpts, get_address_by_name}
use cpo.OpenStack.Routes.Unwind.{call, disarm, deferred, update_allowed_address_pairs}
use cpo.OpenStack.Routes.Create.{
  NodeRoute, new_route, route_exists, pair_exists, create_pairs, create_after_router, create_route,
}
use cpo.OpenStack.Routes.Laws.{
  Neutron, get_address_by_name-Keeps, get_port_id_by_ip-Keeps, get_port_by_id-Keeps,
}
use cpo.OpenStack.Routes.PairUpdates.{update_pairs-Settles}
use cpo.OpenStack.Routes.Replace.{Refused, Replaced, replace-Replaced}
use cpo.OpenStack.Routes.Settles.{Settles, disarm-Settles, call-Settles}

module _ (C : Cloud) (routes : Str → C.State → List Route) (laws : Neutron C routes)
    (id : Str) where
  create_pairs-Settles :
      (route : NodeRoute) (addr : Str) → Settles C (routes id) (create_pairs C route addr)
  unfolding create_pairs
  create_pairs-Settles route addr =
      call-Settles C (routes id) _ _
        (get_port_id_by_ip-Keeps C routes laws id route.target_node addr)
        λ port_id _ _.
          call-Settles C (routes id) _ _ (get_port_by_id-Keeps C routes laws id port_id) λ port _ _.
            by_found port (pair_exists port.allowed_address_pairs route.destination_cidr)
    where
      by_found :
          (port : Port) (found : Bool)
          → Settles C (routes id) (
              if found then disarm C else do
                unwind ← call C (
                    update_allowed_address_pairs C port (
                      port.allowed_address_pairs
                      ++ (record { ip_address = route.destination_cidr }) ∷ []))
                deferred C unwind (disarm C))
      by_found port true = disarm-Settles C (routes id)
      by_found port false = update_pairs-Settles C routes laws id port _

module _ (C : Cloud) (routes : Str → C.State → List Route) (laws : Neutron C routes) (id : Str)
    (opts : NetworkingOpts) where
  -- The next hop: the address of the node in the family of the destination.
  abbrev pub IsHop : NodeRoute → C.State → Str → Type 0
  IsHop route before addr =
      (get_address_by_name C route.target_node (C.is_cidr_v6 route.destination_cidr) opts before).0
      ≡ ok addr

  -- The routes with a new one behind the others, which was not there.
  abbrev pub Appended : NodeRoute → Str → C.State → C.State → Type 0
  Appended route addr before after =
      (route_exists (routes id before) route.destination_cidr addr ≡ false)
      × (routes id after
          ≡ routes id before
            ++ (record { destination_cidr = route.destination_cidr; next_hop = addr }) ∷ [])

  -- What a call for a route may do to the routes of the router.
  abbrev pub Creates : NodeRoute → C.State → Result Error (Unit {0}) → C.State → Type 0
  Creates route before (ok _) after =
      (addr : Str) × IsHop route before addr
      × (((route_exists (routes id before) route.destination_cidr addr ≡ true)
            × (routes id after ≡ routes id before))
          ⊎ Appended route addr before after)
  Creates route before (err _) after =
      (routes id after ≡ routes id before)
      ⊎ ((addr : Str) × IsHop route before addr
          × Appended route addr before after
          × Refused C id (routes id before) after)

  to_creates :
      (route : NodeRoute) (addr : Str) (before s : C.State) (j : Str) (backup : List Route)
      → IsHop route before addr
      → j ≡ id
      → routes id s ≡ routes id before
      → backup ≡ routes id before
      → route_exists backup route.destination_cidr addr ≡ false
      → (res : Result Error (Unit {0})) (after : C.State)
      → Replaced C routes j (routes j s) backup (backup ++ new_route route addr ∷ []) res after
      → Creates route before res after
  to_creates route addr before s j backup hop named same reads absent (ok _) after h = (
    addr,
    hop,
    inr (
      subst (λ l. route_exists l route.destination_cidr addr ≡ false) reads absent,
      ap (λ i. routes i after) (sym named) ∙ h ∙ ap (λ l. l ++ new_route route addr ∷ []) reads,
    ),
  )
  to_creates route addr before s j backup hop named same reads absent (err _) after (inl h) =
      inl (ap (λ i. routes i after) (sym named) ∙ h ∙ ap (λ i. routes i s) named ∙ same)
  to_creates route addr before s j backup hop named same reads absent (err _) after (inr (inl h)) =
      inl (ap (λ i. routes i after) (sym named) ∙ h ∙ reads)
  to_creates route addr before s j backup hop named same reads absent (err _) after
        (inr (inr (set, h))) =
      inr (
        addr,
        hop,
        (
          subst (λ l. route_exists l route.destination_cidr addr ≡ false) reads absent,
          ap (λ i. routes i after) (sym named)
              ∙ set
              ∙ ap (λ l. l ++ new_route route addr ∷ []) reads,
        ),
        subst₂ (λ i l. Refused C i l after) named reads h,
      )

  after_router :
      (route : NodeRoute) (addr : Str) (before s : C.State) (router : Router)
      → IsHop route before addr
      → routes id s ≡ routes id before
      → router.id ≡ id
      → router.routes ≡ routes id before
      → let (res, f) =
          create_after_router C route addr router (record { armed = true; world = s }) in
        Creates route before res f.world
  unfolding create_after_router
  after_router route addr before s router hop same named reads =
      elim (Bool-cases (route_exists router.routes route.destination_cidr addr)) [
        | inl e ↦
            rw (e, create_after_router)
              (
                addr,
                hop,
                inl (subst (λ l. route_exists l route.destination_cidr addr ≡ true) reads e, same),
              )
        | inr e ↦
            rw (e, create_after_router)
              (to_creates route addr before s router.id router.routes hop named same reads e _ _ (
                replace-Replaced C routes laws router _ (create_pairs C route addr) s
                  (create_pairs-Settles C routes laws router.id route addr)))
      ]

  after_router_read :
      (route : NodeRoute) (addr : Str) (before s : C.State)
      → IsHop route before addr
      → routes id s ≡ routes id before
      → (u : Result Error Router) → (C.get_router id s).0 ≡ u
      → let (res, f) =
          continue u
            (create_after_router C route addr)
            (record { armed = true; world = (C.get_router id s).1 }) in
        Creates route before res f.world
  after_router_read route addr before s hop same (err _) e =
      inl (laws.get_router_keeps id s id ∙ same)
  after_router_read route addr before s hop same (ok router) e =
      let (named, reads) = laws.get_router_reads id s router e in
      after_router route addr before (C.get_router id s).1 router hop
        (laws.get_router_keeps id s id ∙ same) named (reads ∙ same)

  module _ (route : NodeRoute) where
    -- A call for a route that ends well leaves the router with the route to the address that is found for the
    -- node: the router had it and is as it was, or it is added behind the routes that were there. A call that
    -- returns an error leaves the routes as they were, unless the last call is that of the unwinder, to set
    -- these very routes again, and the services refuse it: then the route stays added.
    pub create_route-Creates :
        (s : C.State)
        → let (res, s') =
            create_route C (record { router_id = id; networking_opts = opts }) route s in
          Creates route s res s'
    unfolding create_route
    create_route-Creates s = by_address (get_address s).0 refl
      where
        get_address : Exec Error C.State Str
        get_address =
            get_address_by_name C route.target_node (C.is_cidr_v6 route.destination_cidr) opts

        same : routes id (get_address s).1 ≡ routes id s
        same = (get_address_by_name-Keeps C routes laws id _ _ opts).at s

        by_address :
            (u : Result Error Str)
            → (get_address s).0 ≡ u
            → let (res, f) =
                continue u
                  (λ addr.
                    call C (C.get_router id) >>= λ router. create_after_router C route addr router)
                  (record { armed = true; world = (get_address s).1 }) in
              Creates route s res f.world
        by_address (err _) e = inl same
        by_address (ok addr) e =
            after_router_read route addr s (get_address s).1 e same
              (C.get_router id (get_address s).1).0 refl
