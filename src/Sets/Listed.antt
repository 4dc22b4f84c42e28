-- ===== src/Sets/Listed.antt =====
-- Sets of texts as lists: a value of the interface.
use cpo.Base.{
  ◌≡◌, refl, ap, ◌∙◌, ◌↔◌, Bool, true, not, ◌&&◌, if◌then◌else◌, List, [], ◌∷◌, ◌==◌, Str, arith,
  contains, all, str_eq_iff, str_eq_refl, list_eq, nat_eq, Bool-cases, inl, inr,
}
use cpo.Maps.{AllOnce}
use cpo.Sets.{StringSet}
use mathlib.Core.Path.{subst}

all_sound :
    (s t : List Str)
    → all (contains s) t ≡ true
    → (a : Str) → contains t a ≡ true
    → contains s a ≡ true
all_sound s [] h a k = cc
all_sound s (x ∷ t) h a k = elim (Bool-cases (x == a)) [
  | inl e ↦ subst (λ b. contains s b ≡ true) ((str_eq_iff x a).0 e) (ground arith)
  | inr e ↦ all_sound s t (ground arith) a (ground arith)
]

all_complete :
    (s t : List Str)
    → ((a : Str) → contains t a ≡ true → contains s a ≡ true)
    → all (contains s) t ≡ true
all_complete s [] h = refl
all_complete s (x ∷ t) h = ground (
  arith,
  str_eq_refl x,
  h x (ground (arith, str_eq_refl x)),
  all_complete s t (λ a k. h a (ground arith)),
)

pub superset_iff :
    (s t : List Str)
    → (all (contains s) t ≡ true) ↔ ((a : Str) → contains t a ≡ true → contains s a ≡ true)
superset_iff s t = (all_sound s t, all_complete s t)

-- The entries that a test holds of.
abbrev only : (Str → Bool) → List Str → List Str
only p [] = []
only p (x ∷ s) = let rest = only p s in if p x then x ∷ rest else rest

abbrev Respects : (Str → Bool) → Type 0
Respects p = (x y : Str) → (x == y) ≡ true → p x ≡ p y

respects : (p : Str → Bool) → Respects p
respects p x y e = ap p ((str_eq_iff x y).0 e)

pub contains-only :
    (p : Str → Bool) (s : List Str) (a : Str) → contains (only p s) a ≡ (p a && contains s a)
contains-only p [] a = ground arith
contains-only p (x ∷ s) a = elim (Bool-cases (x == a)) [
  | inl e ↦ ground (arith, contains-only p s a, respects p x a e)
  | inr e ↦ ground (arith, contains-only p s a)
]

pub has-removed :
    (s t : List Str) (a : Str)
    → contains (only (λ y. not (contains t y)) s) a ≡ (contains s a && not (contains t a))
has-removed s t a = contains-only (λ y. not (contains t y)) s a ∙ ground arith

-- The entries once each.
abbrev once : List Str → List Str
once [] = []
once (x ∷ s) = let rest = once s in if contains rest x then rest else x ∷ rest

pub contains-once : (s : List Str) (a : Str) → contains (once s) a ≡ contains s a
contains-once [] a = refl
contains-once (x ∷ s) a = elim (Bool-cases (x == a)) [
  | inl e ↦ ground (arith, contains-once s a, respects (contains (once s)) x a e)
  | inr e ↦ ground (arith, contains-once s a)
]

pub once-AllOnce : (s : List Str) → AllOnce (once s)
once-AllOnce [] = tt
once-AllOnce (x ∷ s) = elim (Bool-cases (contains (once s) x)) [
  | inl e ↦ rw (e, once) (once-AllOnce s)
  | inr e ↦ rw (e, once) (e, once-AllOnce s)
]

abbrev pub listed : StringSet
listed = record {
  Set = List Str;
  empty = [];
  insert = λ s x. x ∷ s;
  has = contains;
  is_superset = λ s t. all (contains s) t;
  delete = λ s x. only (λ y. not (x == y)) s;
  difference = λ s t. only (λ y. not (contains t y)) s;
  list = once;
  has-empty = λ a. refl;
  has-insert = λ s x a. refl;
  has-delete = λ s x a. contains-only (λ y. not (x == y)) s a;
  has-difference = has-removed;
  contains-list = contains-once;
  list-AllOnce = once-AllOnce;
  is_superset_iff = superset_iff;
}
