-- ===== src/OpenStack/Lbaas/Members/Kept.antt =====
-- Members that are kept for the addresses of the nodes.
use mathlib.Core.List.{Perm}
use mathlib.Core.Path.{subst}
use cpo.Base.{
  ℕ, ◌≡◌, sym, ◌∙◌, inl, inr, Bool, true, ◌&&◌, List, [], ◌∷◌, ◌++◌, ◌==◌, arith, Str, all,
  contains, nat_eq, list_eq, nat_beq_iff, str_eq_iff, Bool-ext, Bool-cases,
}
use cpo.OpenStack.Lbaas.Api.{Member}
use cpo.OpenStack.Lbaas.Members.{is_member, member_exists}
use cpo.OpenStack.Lbaas.Members.Pairs.{any-perm}

-- Members of the given port whose addresses are among those that are wanted.
abbrev pub is_wanted : List Str → ℕ → Member → Bool
is_wanted done port m = m.protocol_port == port && contains done m.address

-- The members of the pool are some that are kept, one for each wanted address, and the obsolete ones.
abbrev pub Kept : List Str → ℕ → List Member → List Member → Type 0
Kept done port members obsolete =
    (kept : List Member) × Perm members (kept ++ obsolete)
    × (all (is_wanted done port) kept ≡ true)
    × ((a : Str) → contains done a ≡ true → member_exists kept a port ≡ true)

-- One more address is wanted, and one more member is kept for it.
pub grow :
    (done : List Str) (port : ℕ) (m : Member) (kept : List Member) (addr : Str)
    → is_member addr port m ≡ true
    → all (is_wanted done port) kept ≡ true
    → all (is_wanted (addr ∷ done) port) (m ∷ kept) ≡ true
grow done port m [] addr h k = ground (arith, str_eq_iff m.address addr, str_eq_iff addr m.address)
grow done port m (n ∷ kept) addr h k = ground (arith, grow done port m kept addr h (ground arith))

pub grown :
    (done : List Str) (port : ℕ) (m : Member) (kept : List Member) (addr : Str)
    → is_member addr port m ≡ true
    → ((a : Str) → contains done a ≡ true → member_exists kept a port ≡ true)
    → (a : Str) → contains (addr ∷ done) a ≡ true
    → member_exists (m ∷ kept) a port ≡ true
grown done port m kept addr h k a c = elim (Bool-cases (addr == a)) [
  | inl e ↦
      subst (λ b. member_exists (m ∷ kept) b port ≡ true) ((str_eq_iff addr a).0 e) (ground arith)
  | inr f ↦ ground (arith, k a (ground arith))
]

pub kept-wanted :
    (done : List Str) (node_port : ℕ) (kept : List Member) (a : Str) (port : ℕ)
    → all (is_wanted done node_port) kept ≡ true
    → member_exists kept a port ≡ true
    → (port == node_port && contains done a) ≡ true
kept-wanted done node_port [] a port k h = cc
kept-wanted done node_port (m ∷ kept) a port k h = elim (Bool-cases (is_member a port m)) [
  | inl e ↦
      let w : contains done a ≡ true =
        subst (λ b. contains done b ≡ true) ((str_eq_iff m.address a).0 (ground arith))
          (ground arith) in
      ground (arith, w)
  | inr f ↦ kept-wanted done node_port kept a port (ground arith) (ground arith)
]

pub kept-exists :
    (done : List Str) (node_port : ℕ) (now kept : List Member) (a : Str) (port : ℕ)
    → Perm now kept
    → all (is_wanted done node_port) kept ≡ true
    → ((a : Str) → contains done a ≡ true → member_exists kept a node_port ≡ true)
    → member_exists now a port ≡ (port == node_port && contains done a)
kept-exists done node_port now kept a port p wanted there =
    any-perm (is_member a port) p
    ∙ Bool-ext _ _ (kept-wanted done node_port kept a port wanted) (λ h.
      subst (λ n. member_exists kept a n ≡ true)
        (sym ((nat_beq_iff port node_port).0 (ground arith))) (there a (ground arith)))
