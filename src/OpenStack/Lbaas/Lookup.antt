-- ===== src/OpenStack/Lbaas/Lookup.antt =====
-- openstack_loadbalancer.go: the look-ups in the load-balancing and the network service.
pub mod Networks
use cpo.Base.{
  ℕ, ◌==◌, Bool, true, false, not, ◌&&◌, ◌||◌, Option, none, some, List, [], ◌∷◌, ◌++◌, Str, str,
  if◌then◌else◌, ltb, length, any, contains, nat_eq, list_eq,
}
use cpo.Exec.{Result, ok, err, Exec, ◌>>=◌, pure, raise, lift}
use cpo.OpenStack.Api.{Error, not_found, multiple_results}
use cpo.OpenStack.Lbaas.Api.{
  Fault, missing, failed, known, Pages, done, page, fail, LoadBalancer, Listener, Pool, Member,
  FloatingIp, FloatingIpFilter, by_floating_ip, by_port, Network, Subnet, Rule, RuleOpts, Balancer,
}
use cpo.OpenStack.Lbaas.Calls.{Call, seen, wrapped, as_not_found}
use cpo.OpenStack.Lbaas.Services.{ServicePort}

abbrev pub gather : {A B : Type 0} → (A → List B) → List A → List B
gather pick [] = []
gather pick (a ∷ l) = pick a ++ gather pick l

abbrev pub keep : {A : Type 0} → (A → Bool) → A → List A
keep p a = if p a then a ∷ [] else []

module _ {A B : Type 0} (pick : A → List B) where
  -- Reads all pages and keeps of each entry what `pick` gives.
  unfoldable pub collect_all : List B → Pages A → Result Fault (List B)
  collect_all acc done = ok acc
  collect_all acc (fail e) = err e
  collect_all acc (page l rest) = collect_all (acc ++ gather pick l) rest

  -- The same until there is more than one.
  unfoldable pub collect_one : List B → Pages A → Result Fault (List B)
  collect_one acc done = ok acc
  collect_one acc (fail e) = err e
  collect_one acc (page l rest) =
      let next = acc ++ gather pick l in
      let more = collect_one next rest in
      if ltb 1 (length next) then err (known multiple_results) else more

-- What follows such a listing.
abbrev pub only_one : {A : Type 0} → Result Fault (List A) → Result Fault A
only_one (err e) = err (as_not_found e)
only_one (ok []) = err (known not_found)
only_one (ok (a ∷ [])) = ok a
only_one (ok (a ∷ b ∷ l)) = err (known multiple_results)

abbrev pub itself : {A : Type 0} → A → List A
itself a = a ∷ []

-- `toRuleProtocol`, with `strings.ToLower`.
abbrev pub to_rule_protocol : (Str → Str) → Str → Str
to_rule_protocol to_lower protocol =
    if protocol == str "TCP"
    then str "tcp"
    else if protocol == str "UDP"
    then str "udp"
    else to_lower protocol

-- `toListenersProtocol`: both branches give the same text, under another type.
abbrev pub to_listeners_protocol : Str → Str
to_listeners_protocol protocol = if protocol == str "TCP" then str "TCP" else protocol

-- `getListenerForPort`
abbrev pub is_listener_for : ServicePort → Listener → Bool
is_listener_for port l =
    l.protocol == to_listeners_protocol port.protocol && l.protocol_port == port.port

unfoldable pub get_listener_for_port : List Listener → ServicePort → Option Listener
get_listener_for_port [] port = none
get_listener_for_port (l ∷ ls) port =
    let rest = get_listener_for_port ls port in if is_listener_for port l then some l else rest

-- Neither "DELETED" nor "PENDING_DELETE".
abbrev pub is_valid : LoadBalancer → Bool
is_valid lb =
    not (lb.provisioning_status == str "DELETED")
    && not (lb.provisioning_status == str "PENDING_DELETE")

abbrev pub has_listener : Str → Pool → List Pool
has_listener id p = gather (λ l. if l == id then p ∷ [] else []) p.listeners

-- The loop over the pages of networks, with the identifiers that were found before an error.
abbrev pub external_id : Network → List Str
external_id n = if n.is_external then n.id ∷ [] else []

unfoldable pub collect_external : List Str → Pages Network → List Str × Result Fault (Unit {0})
collect_external acc done = (acc, ok tt)
collect_external acc (fail e) = (acc, err e)
collect_external acc (page l rest) =
    let next = acc ++ gather external_id l in
    let more = collect_external next rest in
    if ltb 1 (length next) then (next, err (known multiple_results)) else more

-- `floatingNetworkIds[0]`, which is read of an empty list only if the service answered with the
-- program's own error value.
abbrev pub first_id : Fault → List Str → Result Fault Str
first_id e [] = err e
first_id e (id ∷ _) = ok id

unfoldable pub pick_network : List Str → Result Fault (Unit {0}) → Result Fault Str
pick_network ids (err (known multiple_results)) = first_id (known multiple_results) ids
pick_network ids (err e) = err (as_not_found e)
pick_network ids (ok _) = first_id (known not_found) ids

abbrev pub the_subnet : List Subnet → Result Fault (Option Subnet)
the_subnet [] = err (failed (str "could not find subnet"))
the_subnet (s ∷ []) = ok (some s)
the_subnet (s ∷ t ∷ l) = err (failed (str "find multiple subnets with name"))

module _ (B : Balancer) where
  unfoldable pub get_floating_ip : FloatingIpFilter → Call B FloatingIp
  get_floating_ip opts s =
      let (pages, s') = B.list_floating_ips opts s in (only_one (collect_one itself [] pages), s')

  unfoldable pub get_floating_ip_by_floating_ip : Str → Call B FloatingIp
  get_floating_ip_by_floating_ip floating_ip = get_floating_ip (by_floating_ip floating_ip)

  unfoldable pub get_floating_ip_by_port_id : Str → Call B FloatingIp
  get_floating_ip_by_port_id port_id = get_floating_ip (by_port port_id)

  -- The load balancers to choose from, and the choice.
  unfoldable pub or_legacy : Str → List LoadBalancer → Call B (List LoadBalancer)
  or_legacy legacy_name (lb ∷ lbs) = pure (lb ∷ lbs)
  or_legacy [] [] = raise (known not_found)
  or_legacy (c ∷ legacy_name) [] = B.list_load_balancers (c ∷ legacy_name)

  unfoldable pub get_loadbalancer_by_name : Str → Str → Call B LoadBalancer
  unfolding or_legacy
  get_loadbalancer_by_name name legacy_name = do
    named ← B.list_load_balancers name
    all_load_balancers ← or_legacy legacy_name named
    lift (only_one (ok (gather (keep is_valid) all_load_balancers)))

  unfoldable pub get_listeners_by_load_balancer_id : Str → Call B (List Listener)
  get_listeners_by_load_balancer_id id s =
      let (pages, s') = B.list_listeners id s in
      (collect_all (keep (λ (l : Listener). contains l.load_balancers id)) [] pages, s')

  unfoldable pub get_pool_by_listener_id : Str → Str → Call B Pool
  get_pool_by_listener_id load_balancer_id listener_id s =
      let (pages, s') = B.list_pools load_balancer_id s in
      (only_one (collect_one (has_listener listener_id) [] pages), s')

  unfoldable pub get_members_by_pool_id : Str → Call B (List Member)
  get_members_by_pool_id id s =
      let (pages, s') = B.list_members id s in (collect_all itself [] pages, s')

  unfoldable pub get_security_group_rules : RuleOpts → Call B (List Rule)
  get_security_group_rules opts s =
      let (pages, s') = B.list_rules opts s in (collect_all itself [] pages, s')

  unfoldable pub get_floating_network_id_for_lb : Call B Str
  get_floating_network_id_for_lb s =
      let (pages, s') = B.list_networks s in
      let (ids, result) = collect_external [] pages in (pick_network ids result, s')

  unfoldable pub get_subnet : Str → Call B (Option Subnet)
  get_subnet [] = pure none
  get_subnet (c ∷ subnet) = do
    subs ← seen (wrapped (str "error listing subnets")) (B.list_subnets (c ∷ subnet))
    lift (the_subnet subs)
