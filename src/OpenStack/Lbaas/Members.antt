-- ===== src/OpenStack/Lbaas/Members.antt =====
-- openstack_loadbalancer.go: the members of the pool of one port of a service, in
-- `EnsureLoadBalancer`.
pub mod Pairs
pub mod Kept
pub mod Popped
pub mod Laws
pub mod Rounds
pub mod Obsolete
pub mod Reconciled
use cpo.Base.{
  ℕ, zero, suc, ◌-◌, ◌==◌, Bool, true, false, not, ◌&&◌, ◌||◌, Option, none, some, List, [], ◌∷◌,
  ◌++◌, Str, str, if◌then◌else◌, length, get_elem?, set, take, any, ltb, nat_eq, list_eq,
}
use cpo.Exec.{Result, ok, err, Exec, ◌>>=◌, ◌>>◌, pure, raise, lift}
use cpo.OpenStack.Api.{Error, not_found}
use cpo.OpenStack.Lbaas.Api.{Fault, failed, panicked, Member, MemberOpts, Balancer}
use cpo.OpenStack.Lbaas.Calls.{Call, seen, wrapped, or_missing, or_empty}
use cpo.OpenStack.Lbaas.Lookup.{get_members_by_pool_id}
use cpo.OpenStack.Lbaas.Services.{Node, cut_string, node_address_for_lb}
use cpo.OpenStack.Lbaas.Wait.{wait_active}
use cpo.Strings.Decimal.{decimal}

abbrev pub is_member : Str → ℕ → Member → Bool
is_member addr port member = member.address == addr && member.protocol_port == port

abbrev pub member_exists : List Member → Str → ℕ → Bool
member_exists members addr port = any (is_member addr port) members

-- `members[i] = members[len(members)-1]` on the array under the slice.
abbrev pub copy_last : List Member → ℕ → ℕ → List Member
copy_last array i len = elim (get_elem? array (len - 1)) [ none ↦ array | some m ↦ set array i m ]

-- The loop of `popMember` over the array of the slice that it was given, which has `more` entries
-- from index `i` on; `members` is its first `len` entries. It goes on after a removal, and panics, `none`,
-- where it finds another member behind the shortened slice.
unfoldable pub pop_from : Str → ℕ → List Member → ℕ → ℕ → ℕ → Option (List Member)
pop_from addr port array len i zero = some (take len array)
pop_from addr port array len i (suc more) = elim (get_elem? array i) [
  | none ↦ some (take len array)
  | some member ↦
      let popped = pop_from addr port (copy_last array i len) (len - 1) (suc i) more in
      let kept = pop_from addr port array len (suc i) more in
      if is_member addr port member then (if ltb i len then popped else none) else kept
]

unfoldable pub pop_member : List Member → Str → ℕ → Option (List Member)
unfolding pop_from
pop_member members addr port = pop_from addr port members (length members) 0 (length members)

abbrev pub or_panic : Option (List Member) → Result Fault (List Member)
or_panic (some members) = ok members
or_panic none = err panicked

-- What the loop over the nodes has in scope.
pub record Target : Type 0 where
  pub load_balancer_id : Str
  pub pool_id : Str
  pub name : Str
  pub port_index : ℕ
  pub node_port : ℕ
  pub subnet_id : Str

abbrev pub member_opts : Target → Str → Str → MemberOpts
member_opts t node addr = record {
  name = cut_string (str "member_" ++ decimal t.port_index ++ str "_" ++ node ++ str "_" ++ t.name);
  address = addr;
  protocol_port = t.node_port;
  subnet_id = t.subnet_id;
}

abbrev pub deleting_member : Str
deleting_member = str "error deleting obsolete member"

abbrev pub after_creating_member : Str
after_creating_member =
    str "timeout when waiting for loadbalancer to be ACTIVE after creating member"

abbrev pub after_deleting_member : Str
after_deleting_member =
    str "timeout when waiting for loadbalancer to be ACTIVE after deleting member"

module _ (B : Balancer) where
  -- A wait after a change; its error is replaced.
  unfoldable pub settled : Str → Str → Call B (Unit {0})
  settled load_balancer_id text =
      seen (wrapped text) (wait_active B load_balancer_id) >>= λ _. pure tt

  unfoldable pub create_member : Target → Str → Str → Call B (Unit {0})
  create_member t node addr = do
    _ ←
        seen (wrapped (str "error creating LB pool member for node"))
          (B.create_member t.pool_id (member_opts t node addr))
    settled t.load_balancer_id after_creating_member

  -- One round for a node with an address: the members that are left to be deleted.
  unfoldable pub ensure_member : Target → List Member → Str → Str → Call B (List Member)
  ensure_member t members node addr =
      if not (member_exists members addr t.node_port)
      then (create_member t node addr >>= λ _. pure members)
      else lift (or_panic (pop_member members addr t.node_port))

  -- The loop over the nodes.
  unfoldable pub ensure_node_members : Target → List Member → List Node → Call B (List Member)
  ensure_node_members t members [] = pure members
  ensure_node_members t members (node ∷ nodes) = elim (node_address_for_lb node) [
    | err not_found ↦ ensure_node_members t members nodes
    | err _ ↦ raise (failed (str "error getting address for node"))
    | ok addr ↦ ensure_member t members node.name addr >>= λ left. ensure_node_members t left nodes
  ]

  unfoldable pub delete_member : Str → Str → Member → Call B (Unit {0})
  delete_member load_balancer_id pool_id member = do
    _ ← seen (λ r. wrapped deleting_member (or_missing r)) (B.delete_member pool_id member.id)
    settled load_balancer_id after_deleting_member

  -- The loop over the members that are left.
  unfoldable pub delete_members : Str → Str → List Member → Call B (Unit {0})
  delete_members load_balancer_id pool_id [] = pure tt
  delete_members load_balancer_id pool_id (member ∷ members) =
      delete_member load_balancer_id pool_id member >>= λ _.
      delete_members load_balancer_id pool_id members

  unfoldable pub list_members : Str → Call B (List Member)
  list_members pool_id =
      seen (λ r. wrapped (str "error getting pool members") (or_empty r))
        (get_members_by_pool_id B pool_id)

  unfoldable pub ensure_members : Target → List Node → Call B (Unit {0})
  ensure_members t nodes = do
    members ← list_members t.pool_id
    obsolete ← ensure_node_members t members nodes
    delete_members t.load_balancer_id t.pool_id obsolete
