-- ===== src/OpenStack/Routes/Listing/Owners.antt =====
-- Which node a listed route leads to: the last server that has the next hop among its addresses.
use mathlib.Core.Path.{subst, ap₂}
use cpo.Base.{
  ◌≡◌, refl, sym, ap, ◌∙◌, ◌==◌, Bool, true, false, Option, none, some, List, [], ◌∷◌, ◌++◌, Str,
  map, any, if◌then◌else◌, arith, Option-cases, inl, inr, nat_eq, list_eq,
}
use cpo.Exec.{Result, ok, err, ok-injective, Result-cases, continue-eq-ok}
use cpo.Maps.{Map, put, get}
use cpo.Maps.Entries.{get-put}
use cpo.OpenStack.Api.{Error, Pages, done, page, fail, Route, Router, Server, Cloud}
use cpo.OpenStack.Servers.{NetworkingOpts, NodeAddress, node_addresses}
use cpo.OpenStack.Routes.Ports.{Routes}
use cpo.OpenStack.Routes.Create.{NodeRoute}
use cpo.OpenStack.Routes.Listing.{
  put_addresses, node_route, handle_server, each_server, foreach_server, names_by_addr, list_routes,
}

abbrev is_address : Str → NodeAddress → Bool
is_address hop a = a.address == hop

-- The first value if there is one, else the second.
abbrev pub or_else : Option Str → Option Str → Option Str
or_else (some n) m = some n
or_else none m = m

or_else-none : (a : Option Str) → or_else a none ≡ a
or_else-none none = refl
or_else-none (some n) = refl

or_else_assoc : (a b c : Option Str) → or_else a (or_else b c) ≡ or_else (or_else a b) c
or_else_assoc (some n) b c = refl
or_else_assoc none b c = refl

put_addresses-get :
    (name : Str) (addrs : List NodeAddress) (names : Map Str) (hop : Str)
    → get (put_addresses name addrs names) hop
      ≡ (if any (is_address hop) addrs then some name else get names hop)
unfolding put_addresses
put_addresses-get name [] names hop = refl
put_addresses-get name (a ∷ addrs) names hop = ground (
  arith,
  put_addresses-get name addrs (put a.address name names) hop,
  get-put a.address name names hop,
)

or_else_if :
    (b : Bool) (n : Str) (o : Option Str)
    → (if b then some n else o) ≡ or_else (if b then some n else none) o
or_else_if true n o = refl
or_else_if false n o = refl

-- All servers of the pages.
abbrev pub all_servers : Pages Server → List Server
all_servers done = []
all_servers (fail e) = []
all_servers (page l rest) = l ++ all_servers rest

module _ (C : Cloud) (opts : NetworkingOpts) where
  -- The name of the server's node, if the server has the address.
  abbrev pub node_at : Str → Server → Option Str
  node_at hop srv = elim (node_addresses C srv opts) [
    | err _ ↦ none
    | ok addrs ↦ if any (is_address hop) addrs then some (C.to_lower srv.name) else none
  ]

  -- The name of the last server with the address.
  abbrev pub owner : List Server → Str → Option Str
  owner [] hop = none
  owner (srv ∷ l) hop = or_else (owner l hop) (node_at hop srv)

  owner-append :
      (l l' : List Server) (hop : Str) → owner (l ++ l') hop ≡ or_else (owner l' hop) (owner l hop)
  owner-append [] l' hop = sym (or_else-none (owner l' hop))
  owner-append (srv ∷ l) l' hop =
      ap (λ o. or_else o (node_at hop srv)) (owner-append l l' hop)
      ∙ sym (or_else_assoc (owner l' hop) (owner l hop) (node_at hop srv))

  handle_server-get :
      (srv : Server) (names names' : Map Str) (hop : Str)
      → handle_server C opts srv names ≡ ok names'
      → get names' hop ≡ or_else (node_at hop srv) (get names hop)
  unfolding handle_server
  handle_server-get srv names names' hop h = by_addrs (node_addresses C srv opts) refl
    where
      by_addrs :
          (r : Result Error (List NodeAddress))
          → node_addresses C srv opts ≡ r
          → get names' hop ≡ or_else (node_at hop srv) (get names hop)
      by_addrs (err e) q = (let k : err e ≡ ok names' = rw (q, handle_server) at h in cc)
      by_addrs (ok addrs) q =
          let k : ok (put_addresses (C.to_lower srv.name) addrs names) ≡ ok names' =
            rw (q, handle_server) at h in
          let e = ok-injective _ _ k in
          rw (q, node_at)
            (subst
              (λ m.
                get m hop
                ≡ or_else (if any (is_address hop) addrs then some (C.to_lower srv.name) else none)
                    (get names hop))
              e
              (put_addresses-get (C.to_lower srv.name) addrs names hop
                ∙ or_else_if (any (is_address hop) addrs) (C.to_lower srv.name) (get names hop)))

  each_server-get :
      (l : List Server) (names names' : Map Str) (hop : Str)
      → each_server C opts l names ≡ ok names'
      → get names' hop ≡ or_else (owner l hop) (get names hop)
  unfolding each_server
  each_server-get [] names names' hop h = ap (λ m. get m hop) (sym (ok-injective names names' h))
  each_server-get (srv ∷ l) names names' hop h =
      elim (Result-cases (handle_server C opts srv names)) [
        | inl (e, q) ↦ (let k : err e ≡ ok names' = rw (q, each_server) at h in cc)
        | inr (mid, q) ↦
            let k : each_server C opts l mid ≡ ok names' = rw (q, each_server) at h in
            each_server-get l mid names' hop k
            ∙ (ap (or_else (owner l hop)) (handle_server-get srv names mid hop q)
                ∙ or_else_assoc (owner l hop) (node_at hop srv) (get names hop))
      ]

  foreach_server-get :
      (pages : Pages Server) (names names' : Map Str) (hop : Str)
      → foreach_server C opts pages names ≡ ok names'
      → get names' hop ≡ or_else (owner (all_servers pages) hop) (get names hop)
  unfolding foreach_server
  foreach_server-get done names names' hop h =
      ap (λ m. get m hop) (sym (ok-injective names names' h))
  foreach_server-get (fail e) names names' hop h = cc
  foreach_server-get (page l rest) names names' hop h =
      elim (Result-cases (each_server C opts l names)) [
        | inl (e, q) ↦ (let k : err e ≡ ok names' = rw (q, foreach_server) at h in cc)
        | inr (mid, q) ↦
            let k : foreach_server C opts rest mid ≡ ok names' = rw (q, foreach_server) at h in
            foreach_server-get rest mid names' hop k
            ∙ (ap (or_else (owner (all_servers rest) hop)) (each_server-get l names mid hop q)
                ∙ (or_else_assoc (owner (all_servers rest) hop) (owner l hop) (get names hop)
                    ∙ ap (λ o. or_else o (get names hop))
                        (sym (owner-append l (all_servers rest) hop))))
      ]

  -- A route of the router as the controller sees it, given the owner of its next hop.
  abbrev pub seen_with : Option Str → Route → NodeRoute
  seen_with (some name) item = record {
    target_node = name;
    destination_cidr = item.destination_cidr;
    blackhole = false;
  }
  seen_with none item = record {
    target_node = item.next_hop;
    destination_cidr = item.destination_cidr;
    blackhole = true;
  }

  abbrev pub seen : List Server → Route → NodeRoute
  seen l item = seen_with (owner l item.next_hop) item

  node_route-seen :
      (l : List Server) (names : Map Str)
      → ((hop : Str) → get names hop ≡ owner l hop)
      → (item : Route) → node_route names item ≡ seen l item
  unfolding node_route
  node_route-seen l names h item = elim (Option-cases (get names item.next_hop)) [
    | inl e ↦ rw (e, node_route) (ap (λ o. seen_with o item) (sym e ∙ h item.next_hop))
    | inr (n, e) ↦ rw (e, node_route) (ap (λ o. seen_with o item) (sym e ∙ h item.next_hop))
  ]

  map-seen :
      (l : List Server) (names : Map Str)
      → ((hop : Str) → get names hop ≡ owner l hop)
      → (items : List Route) → map (node_route names) items ≡ map (seen l) items
  map-seen l names h [] = refl
  map-seen l names h (item ∷ items) =
      ap₂ ◌∷◌ (node_route-seen l names h item) (map-seen l names h items)

module _ (C : Cloud) (r : Routes) where
  -- The routes that `ListRoutes` returns are those of the router, in its order. A route leads to the
  -- node of the last listed server that has its next hop among its addresses; where no server has
  -- it, the route is a black hole and its target is the next hop.
  pub list_routes-seen :
      (s : C.State) (routes : List NodeRoute)
      → (list_routes C r s).0 ≡ ok routes
      → let (pages, s') = C.list_servers none s in
        (router : Router) × ((C.get_router r.router_id s').0 ≡ ok router)
        × (routes ≡ map (seen C r.networking_opts (all_servers pages)) router.routes)
  unfolding list_routes names_by_addr
  list_routes-seen s routes h =
      let (names, e, h1) = continue-eq-ok (names_by_addr C r.networking_opts s).0 _ _ routes h in
      let (router, f, h2) = continue-eq-ok (C.get_router r.router_id _).0 _ _ routes h1 in
      let pages = (C.list_servers none s).0 in
      let found : (hop : Str) → get names hop ≡ owner C r.networking_opts (all_servers pages) hop =
        λ hop. foreach_server-get C r.networking_opts pages [] names hop e ∙ or_else-none _ in
      (
        router,
        f,
        sym (ok-injective _ routes h2)
            ∙ map-seen C r.networking_opts (all_servers pages) names found router.routes,
      )
