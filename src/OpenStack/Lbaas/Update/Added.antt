-- ===== src/OpenStack/Lbaas/Update/Added.antt =====
-- The members that `UpdateLoadBalancer` adds to a pool.
use mathlib.Core.List.{Perm}
use mathlib.Core.List.Perm
use mathlib.Core.Path.{subst}
use cpo.Base.{
  ℕ, ◌≡◌, refl, sym, ◌∙◌, inl, inr, true, ◌||◌, List, [], ◌∷◌, ◌++◌, ◌==◌, arith, Str, all,
  contains, nat_eq, list_eq, nat_beq_iff, str_eq_iff, Bool-cases, if◌then◌else◌,
}
use cpo.Exec.{pure}
use cpo.Exec.Post.{Post, bind-Post, pure-Post}
use cpo.Maps.{Map, get, has_key}
use cpo.OpenStack.Lbaas.Api.{Member, Balancer}
use cpo.OpenStack.Lbaas.Members.{is_member, member_exists, settled, after_creating_member}
use cpo.OpenStack.Lbaas.Members.Kept.{is_wanted, grow}
use cpo.OpenStack.Lbaas.Members.Laws.{MemberLaws, settled-Keeps}
use cpo.OpenStack.Lbaas.Members.Pairs.{any-append}
use cpo.OpenStack.Lbaas.Services.{ServicePort, Node}
use cpo.OpenStack.Lbaas.Update.{Scope, update_opts, has_port, add_member, add_members}
use cpo.OpenStack.Lbaas.Update.Entries.{entries, has_port-entries}

-- Members that were made, one for each address that no member of the list serves.
abbrev pub Added : List Str → ℕ → List Member → List Member → Type 0
Added done port members listed =
    (made : List Member) × Perm members (made ++ listed)
    × (all (is_wanted done port) made ≡ true)
    × ((a : Str) → contains done a ≡ true → member_exists (made ++ listed) a port ≡ true)

pub wanted-more :
    (done more : List Str) (port : ℕ) (made : List Member)
    → ((a : Str) → contains done a ≡ true → contains more a ≡ true)
    → all (is_wanted done port) made ≡ true
    → all (is_wanted more port) made ≡ true
wanted-more done more port [] f h = refl
wanted-more done more port (m ∷ made) f h =
    ground (arith, f m.address (ground arith), wanted-more done more port made f (ground arith))

-- The address is served, and so are those before it.
serves :
    (done : List Str) (port : ℕ) (now : List Member) (addr : Str)
    → member_exists now addr port ≡ true
    → ((a : Str) → contains done a ≡ true → member_exists now a port ≡ true)
    → (a : Str) → contains (addr ∷ done) a ≡ true
    → member_exists now a port ≡ true
serves done port now addr h k a c = elim (Bool-cases (addr == a)) [
  | inl e ↦ subst (λ b. member_exists now b port ≡ true) ((str_eq_iff addr a).0 e) h
  | inr f ↦ k a (ground arith)
]

module _ (B : Balancer) (members : Str → B.cloud.State → List Member) (laws : MemberLaws B members)
    (scope : Scope) (port : ServicePort) (pool : Str) (listed : List Member) where
  abbrev pub Rounds : List Str → B.cloud.State → Type 0
  Rounds done s = Added done port.node_port (members pool s) listed

  add_member-Post :
      (index : ℕ) (done : List Str) (addr : Str) (node : Node) (s : B.cloud.State)
      → Rounds done s
      → Post (add_member B scope index port pool addr node) s (λ _. Rounds (addr ∷ done))
  unfolding add_member
  add_member-Post index done addr node s (made, p, wanted, there) =
      bind-Post (B.create_member pool (update_opts scope index port addr node))
        (λ _. settled B scope.loadbalancer.id after_creating_member) s (λ _. Rounds (addr ∷ done))
        λ m e u h.
          let (at, on, added) =
            laws.create_adds pool (update_opts scope index port addr node) s m e in
          let same : is_member addr port.node_port m ≡ true =
            ground (arith, str_eq_iff m.address addr, nat_beq_iff m.protocol_port port.node_port) in
          let keeps =
            (settled-Keeps B members laws pool scope.loadbalancer.id after_creating_member).at _ in
          (
            m ∷ made,
            subst (λ l. Perm l (m ∷ made ++ listed)) (sym keeps) (Perm.trans added (Perm.cons m p)),
            grow done port.node_port m made addr same wanted,
            serves done port.node_port (m ∷ made ++ listed) addr (ground arith)
                (λ a c. ground (arith, there a c)),
          )

  -- The rounds for the addresses of a map.
  abbrev pub After : List Str → Map Node → B.cloud.State → Type 0
  After done addrs s =
      (all : List Str) × Rounds all s
      × ((a : Str) → contains all a ≡ (has_key addrs a || contains done a))

  pub add_members-Post :
      (index : ℕ) (addrs : Map Node) (done : List Str) (s : B.cloud.State)
      → Rounds done s
      → Post (add_members B scope index port pool (entries listed) addrs) s (λ _. After done addrs)
  unfolding add_members
  add_members-Post index [] done s r = pure-Post tt s (λ _. After done []) (done, r, λ a. refl)
  add_members-Post index ((addr, node) ∷ addrs) done s r =
      bind-Post
        (if has_port port.node_port (get (entries listed) addr)
          then pure tt
          else add_member B scope index port pool addr node)
        (λ _. add_members B scope index port pool (entries listed) addrs) s
        (λ _. After done ((addr, node) ∷ addrs))
        λ u h v k.
          let (all, r', same) = add_members-Post index addrs (addr ∷ done) _ (round u h) v k in
          (all, r', λ a. same a ∙ ground arith)
    where
      served : has_port port.node_port (get (entries listed) addr) ≡ true → Rounds (addr ∷ done) s
      served t =
          let (made, p, wanted, there) = r in
          (
            made,
            p,
            wanted-more done (addr ∷ done) port.node_port made (λ a c. ground arith) wanted,
            serves done port.node_port (made ++ listed) addr
                (ground (
                  arith,
                  any-append (is_member addr port.node_port) made listed,
                  has_port-entries listed addr port.node_port t,
                ))
                there,
          )

      round :
          Post
            (if has_port port.node_port (get (entries listed) addr)
              then pure tt
              else add_member B scope index port pool addr node)
            s
            (λ _. Rounds (addr ∷ done))
      round = elim (Bool-cases (has_port port.node_port (get (entries listed) addr))) [
        | inl t ↦ rw (t, if◌then◌else◌) (pure-Post tt s (λ _. Rounds (addr ∷ done)) (served t))
        | inr f ↦ rw (f, if◌then◌else◌) (add_member-Post index done addr node s r)
      ]
