-- ===== src/OpenStack/Lbaas/Members/Rounds.antt =====
-- The members that `EnsureLoadBalancer` keeps or creates for the nodes.
use mathlib.Core.List.{Perm, perm_middle}
use mathlib.Core.List.Perm
use mathlib.Core.Path.{subst}
use cpo.Base.{
  ◌≡◌, refl, sym, ◌∙◌, inl, inr, Bool, true, false, ◌||◌, List, [], ◌∷◌, ◌++◌, ◌==◌, arith, Str,
  any, all, contains, nat_eq, list_eq, nat_beq_iff, str_eq_iff, Bool-cases, ◌⊎◌, Option, none, some,
}
use cpo.Exec.{Result, ok, err, pure}
use cpo.Exec.Post.{Post, bind-Post, pure-Post, raise-Post}
use cpo.OpenStack.Lbaas.Api.{Member, Balancer}
use cpo.OpenStack.Lbaas.Calls.{seen, wrapped, wrapped-ok}
use cpo.OpenStack.Lbaas.Members.{
  is_member, member_exists, pop_member, or_panic, Target, member_opts, create_member, ensure_member,
  ensure_node_members,
}
use cpo.OpenStack.Lbaas.Members.Kept.{Kept, grow, grown}
use cpo.OpenStack.Lbaas.Members.Laws.{MemberLaws, settled-Keeps}
use cpo.OpenStack.Lbaas.Members.Pairs.{PairsOnce, pairs_once-perm}
use cpo.OpenStack.Lbaas.Members.Popped.{pop_member-perm}
use cpo.OpenStack.Api.{Error, no_address_found}
use cpo.OpenStack.Servers.{NodeAddress}
use cpo.OpenStack.Lbaas.Services.{Node, or_else, lb_address, node_address_for_lb}

abbrev Answers : Result Error Str → Type 0
Answers r = (r ≡ err no_address_found) ⊎ ((a : Str) × (r ≡ ok a))

or_else-Answers : (o : Option Str) (r : Result Error Str) → Answers r → Answers (or_else o r)
or_else-Answers none r h = h
or_else-Answers (some a) r h = inr (a, refl)

lb_address-Answers : (l : List NodeAddress) → Answers (lb_address l)
lb_address-Answers [] = inl refl
lb_address-Answers (a ∷ l) = or_else-Answers _ _ (or_else-Answers _ _ (inl refl))

-- A node without an address for load balancers is never reported by `ErrNotFound`.
pub node_address_for_lb-Answers : (n : Node) → Answers (node_address_for_lb n)
unfolding node_address_for_lb
node_address_for_lb-Answers n = lb_address-Answers n.addresses

-- Whether the node has this address for load balancers.
abbrev pub has_address : Str → Node → Bool
has_address a n = elim (node_address_for_lb n) [ ok x ↦ x == a | err _ ↦ false ]

module _ (B : Balancer) (members : Str → B.cloud.State → List Member) (laws : MemberLaws B members)
    (t : Target) where
  -- The members of the pool, and the obsolete ones, after the rounds for some addresses.
  abbrev pub Rounds : List Str → List Member → B.cloud.State → Type 0
  Rounds done obsolete s = PairsOnce obsolete × Kept done t.node_port (members t.pool_id s) obsolete

  create_member-Post :
      (done : List Str) (obsolete : List Member) (node addr : Str) (s : B.cloud.State)
      → Rounds done obsolete s
      → Post (create_member B t node addr) s (λ _ s'. Rounds (addr ∷ done) obsolete s')
  unfolding create_member
  create_member-Post done obsolete node addr s (once, (kept, p, wanted, there)) =
      bind-Post (seen (wrapped _) (B.create_member t.pool_id (member_opts t node addr))) _ s
        (λ _ s'. Rounds (addr ∷ done) obsolete s')
        λ m e u h.
          let (at, port, added) =
            laws.create_adds t.pool_id (member_opts t node addr) s m (wrapped-ok _ _ m e) in
          let same : is_member addr t.node_port m ≡ true =
            ground (arith, str_eq_iff m.address addr, nat_beq_iff m.protocol_port t.node_port) in
          let keeps = (settled-Keeps B members laws t.pool_id _ _).at _ in
          (
            once,
            (
              m ∷ kept,
              subst (λ l. Perm l (m ∷ kept ++ obsolete)) (sym keeps)
                  (Perm.trans added (Perm.cons m p)),
              grow done t.node_port m kept addr same wanted,
              grown done t.node_port m kept addr same there,
            ),
          )

  -- A member that is there already is not obsolete.
  popped-Rounds :
      (done : List Str) (obsolete : List Member) (addr : Str) (s : B.cloud.State)
      → member_exists obsolete addr t.node_port ≡ true
      → Rounds done obsolete s
      → (left : List Member) × (pop_member obsolete addr t.node_port ≡ some left)
        × Rounds (addr ∷ done) left s
  popped-Rounds done obsolete addr s e (once, (kept, p, wanted, there)) =
      let (m, same, left, popped, perm) = pop_member-perm obsolete addr t.node_port once e in
      (
        left,
        popped,
        (
          ground (arith, pairs_once-perm perm),
          (
            m ∷ kept,
            Perm.trans p (Perm.trans (Perm.append_left kept (Perm.symm perm)) (perm_middle kept _)),
            grow done t.node_port m kept addr same wanted,
            grown done t.node_port m kept addr same there,
          ),
        ),
      )

  ensure_member-Post :
      (done : List Str) (obsolete : List Member) (node addr : Str) (s : B.cloud.State)
      → Rounds done obsolete s
      → Post (ensure_member B t obsolete node addr) s (Rounds (addr ∷ done))
  unfolding ensure_member
  ensure_member-Post done obsolete node addr s r =
      elim (Bool-cases (member_exists obsolete addr t.node_port)) [
        | inl e ↦
            let (left, popped, r') = popped-Rounds done obsolete addr s e r in
            rw (e, ensure_member)
              (rw (popped, or_panic) (pure-Post left s (Rounds (addr ∷ done)) r'))
        | inr f ↦
            rw (f, ensure_member)
              (bind-Post (create_member B t node addr) (λ _. pure obsolete) s (Rounds (addr ∷ done))
                (λ u h.
                  pure-Post obsolete _ (Rounds (addr ∷ done))
                    (create_member-Post done obsolete node addr s r u h)))
      ]

  -- The rounds for some more nodes.
  abbrev pub After : List Str → List Node → List Member → B.cloud.State → Type 0
  After done nodes left s =
      (all : List Str) × Rounds all left s
      × ((a : Str) → contains all a ≡ (any (has_address a) nodes || contains done a))

  pub ensure_node_members-Post :
      (nodes : List Node) (done : List Str) (obsolete : List Member) (s : B.cloud.State)
      → Rounds done obsolete s
      → Post (ensure_node_members B t obsolete nodes) s (After done nodes)
  unfolding ensure_node_members
  ensure_node_members-Post [] done obsolete s r =
      pure-Post obsolete s (After done []) (done, r, λ a. refl)
  ensure_node_members-Post (n ∷ nodes) done obsolete s r = elim (node_address_for_lb-Answers n) [
    | inl eq ↦ rw (eq, ensure_node_members) (raise-Post _ s (After done (n ∷ nodes)))
    | inr (addr, eq) ↦
        rw (eq, ensure_node_members)
          (bind-Post (ensure_member B t obsolete n.name addr)
            (λ left. ensure_node_members B t left nodes) s (After done (n ∷ nodes))
            (λ left h b k.
              let (all, r', same) =
                ensure_node_members-Post nodes (addr ∷ done) left _
                  (ensure_member-Post done obsolete n.name addr s r left h) b k in
              (all, r', λ a. same a ∙ rw (eq, has_address) (ground arith))))
  ]
