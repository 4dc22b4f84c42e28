-- ===== src/Keystone/Find.antt =====
-- `findString` of pkg/identity/keystone/authorizer.go: a sort and a binary search.
use cpo.Base.{
  ℕ, ◌<◌, ◌≤◌, ◌≡◌, refl, ap, sym, ◌∙◌, inl, inr, Bool, true, false, none, some, List, ◌==◌,
  if◌then◌else◌, ltb, ltb→lt, lt→ltb, length, get_elem?, get_elem?-lt, lt-get_elem?, contains,
  contains-at, contains_of_at, Bool-cases, Bool-ext, Option-cases, Str, list_eq, nat_eq, arith,
}
use cpo.Sorting.{sort, search_first, at_least, str_order, str_le, str_le_antisym, str_le_trans}
use cpo.Sorting.Sorted.{IsSorted, sort-IsSorted, IsSorted-at, contains-sort, le_refl}
use cpo.Sorting.Search.{IsMonotone, IsFirst, search_first-IsFirst}

-- The test `list[index] == a`; an index out of range is not read.
abbrev pub stands_at : List Str → ℕ → Str → Bool
stands_at l i a = elim (get_elem? l i) [ none ↦ false | some x ↦ x == a ]

-- The answer, and the list that the call leaves behind: `sort.Strings` sorts it in place.
unfoldable pub find_string : Str → List Str → Bool × List Str
find_string a list =
    let sorted = sort list in
    let index = search_first (length sorted) (at_least sorted a) in
    ((if ltb index (length sorted) then stands_at sorted index a else false), sorted)

module _ (a : Str) (l : List Str) (s : IsSorted l) where
  at_least-IsMonotone : IsMonotone (at_least l a)
  at_least-IsMonotone i j p h = elim (Option-cases (get_elem? l j)) [
    | inl e ↦ rw (e, at_least) refl
    | inr (y, ey) ↦
        let (x, ex) = get_elem?-lt l i (omega (arith, lt-get_elem? l j ey)) in
        let ax : str_le a x ≡ true = rw (ex, at_least) at h in
        rw (ey, at_least) (str_le_trans a x y ax (IsSorted-at l i j s p ex ey))
  ]

  module _ (r : ℕ) (first : IsFirst (length l) (at_least l a) r) where
    le_of_at : (i : ℕ) → get_elem? l i ≡ some a → r ≤ i
    le_of_at i ei = elim (Bool-cases (ltb i r)) [
      | inl q ↦
          let f : at_least l a i ≡ false = first.fails_below i (ltb→lt i r q) in
          let g : str_le a a ≡ false = rw (ei, at_least) at f in cc (le_refl a)
      | inr q ↦ ground arith
    ]

    at-first : contains l a ≡ true → get_elem? l r ≡ some a
    at-first h =
        let (i, ei) = contains-at l a h in
        let le : r ≤ i = le_of_at i ei in
        let r_in : r < length l = omega (arith, lt-get_elem? l i ei) in
        let (x, ex) = get_elem?-lt l r r_in in
        let f : at_least l a r ≡ true = first.holds_from r (omega arith) r_in in
        let up : str_le a x ≡ true = rw (ex, at_least) at f in
        ex ∙ ap some (str_le_antisym x a (IsSorted-at l r i s le ex ei) up)

contains_of_stands_at :
    (l : List Str) (i : ℕ) (a : Str) → stands_at l i a ≡ true → contains l a ≡ true
contains_of_stands_at l i a h = elim (Option-cases (get_elem? l i)) [
  | inl e ↦ let f : false ≡ true = rw (e, stands_at) at h in cc
  | inr (x, e) ↦
      let f : (x == a) ≡ true = rw (e, stands_at) at h in
      contains_of_at l i a (e ∙ ap some ((list_eq.same_iff x a).0 f))
]

-- The binary search over the sorted list answers whether the value stands in the list.
pub find_string-contains : (a : Str) (list : List Str) → (find_string a list).0 ≡ contains list a
unfolding find_string
find_string-contains a list = Bool-ext _ _ found back
  where
    sorted : List Str
    sorted = sort list

    r : ℕ
    r = search_first (length sorted) (at_least sorted a)

    first : IsFirst (length sorted) (at_least sorted a) r
    first =
        search_first-IsFirst (length sorted) (at_least sorted a)
          (at_least-IsMonotone a sorted (sort-IsSorted list))

    found :
        (if ltb r (length sorted) then stands_at sorted r a else false) ≡ true
        → contains list a ≡ true
    found h = sym (contains-sort a list) ∙ contains_of_stands_at sorted r a (ground arith)

    back :
        contains list a ≡ true
        → (if ltb r (length sorted) then stands_at sorted r a else false) ≡ true
    back h =
        let e : get_elem? sorted r ≡ some a =
          at-first a sorted (sort-IsSorted list) r first (contains-sort a list ∙ h) in
        rw (lt→ltb r (length sorted) (lt-get_elem? sorted r e))
          (rw (e, stands_at) ((list_eq.same_iff a a).1 refl))
