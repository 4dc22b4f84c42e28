-- ===== src/OpenStack/Lbaas/Update/Entries.antt =====
-- The map of the members of a pool by their addresses.
use cpo.Base.{
  ℕ, ◌≡◌, refl, sym, ap, ◌∙◌, inl, inr, true, false, not, ◌||◌, some, List, [], ◌∷◌, ◌++◌, ◌==◌,
  arith, Str, any, all, nat_eq, list_eq, str_eq_iff, Bool-cases,
}
use cpo.Maps.{Map, put, get, has_key}
use mathlib.Core.List.{append-nil}
use cpo.OpenStack.Lbaas.Api.{Member}
use cpo.OpenStack.Lbaas.Members.{member_exists}
use cpo.OpenStack.Lbaas.Members.Pairs.{same_address, AddressesOnce}
use cpo.OpenStack.Lbaas.Update.{members_by_address, has_port}

abbrev pub entries : List Member → Map Member
entries [] = []
entries (m ∷ ms) = (m.address, m) ∷ entries ms

append-shift : {A : Type 0} (l : List A) (x : A) (r : List A) → (l ++ x ∷ []) ++ r ≡ l ++ x ∷ r
append-shift [] x r = refl
append-shift (y ∷ l) x r = ap (λ k. y ∷ k) (append-shift l x r)

put-new :
    (a : Str) (m : Member) (found : Map Member)
    → has_key found a ≡ false
    → put a m found ≡ found ++ (a, m) ∷ []
put-new a m [] h = refl
put-new a m ((k, n) ∷ found) h =
    let f : (k == a) ≡ false = ground arith in
    rw (f, put) (ap (λ l. (k, n) ∷ l) (put-new a m found (ground arith)))

has_key-append :
    (found : Map Member) (a : Str) (m : Member) (b : Str)
    → has_key (found ++ (a, m) ∷ []) b ≡ (has_key found b || a == b)
has_key-append [] a m b = ground arith
has_key-append ((k, n) ∷ found) a m b = ground (arith, has_key-append found a m b)

-- No member has an address that is there.
abbrev pub Fresh : Map Member → List Member → Type 0
Fresh found l = all (λ m. not (has_key found m.address)) l ≡ true

pub Fresh-nil : (l : List Member) → Fresh [] l
Fresh-nil [] = refl
Fresh-nil (m ∷ l) = Fresh-nil l

Fresh-step :
    (found : Map Member) (m : Member) (l : List Member)
    → Fresh found l
    → any (same_address m) l ≡ false
    → Fresh (found ++ (m.address, m) ∷ []) l
Fresh-step found m [] h k = refl
Fresh-step found m (n ∷ l) h k = ground (
  arith,
  Fresh-step found m l (ground arith) (ground arith),
  has_key-append found m.address m n.address,
  str_eq_iff m.address n.address,
  str_eq_iff n.address m.address,
)

-- Where no two members have the same address, the map has them all, in their order.
pub members_by_address-entries :
    (found : Map Member) (l : List Member)
    → Fresh found l
    → AddressesOnce l
    → members_by_address found l ≡ found ++ entries l
unfolding members_by_address
members_by_address-entries found [] f o = sym (append-nil found)
members_by_address-entries found (m ∷ l) f o =
    let new = put-new m.address m found (ground arith) in
    let ih =
      members_by_address-entries (found ++ (m.address, m) ∷ []) l
        (Fresh-step found m l (ground arith) (ground arith)) (ground arith) in
    ap (λ k. members_by_address k l) new ∙ ih ∙ append-shift found _ (entries l)

-- A member that is found by its address, with the port, is one of them.
pub has_port-entries :
    (l : List Member) (a : Str) (port : ℕ)
    → has_port port (get (entries l) a) ≡ true
    → member_exists l a port ≡ true
has_port-entries [] a port h = cc
has_port-entries (m ∷ l) a port h = elim (Bool-cases (m.address == a)) [
  | inl e ↦ let k : has_port port (some m) ≡ true = rw (e, get) at h in ground arith
  | inr f ↦
      let k : has_port port (get (entries l) a) ≡ true = rw (f, get) at h in
      ground (arith, has_port-entries l a port k)
]
