-- ===== src/Sets.antt =====
-- `sets.String` of k8s.io/apimachinery, which the program uses and does not implement: the
-- operations that it calls, with their documented behaviour.
pub mod Listed
use cpo.Maps.{AllOnce}
use cpo.Base.{
  ◌≡◌, refl, ◌↔◌, Bool, true, false, ◌||◌, ◌&&◌, not, List, [], ◌∷◌, ◌==◌, Str, list_eq, nat_eq,
  contains, arith,
}

pub record StringSet : Type 1 where
  pub Set : Type 0
  pub empty : Set
  pub insert : Set → Str → Set
  pub has : Set → Str → Bool
  pub is_superset : Set → Set → Bool
  pub delete : Set → Str → Set
  pub difference : Set → Set → Set
  -- `List()`, in the order of the texts
  pub list : Set → List Str
  pub has-empty : (a : Str) → has empty a ≡ false
  pub has-insert : (s : Set) (x a : Str) → has (insert s x) a ≡ (x == a || has s a)
  pub has-delete : (s : Set) (x a : Str) → has (delete s x) a ≡ (not (x == a) && has s a)
  pub has-difference : (s t : Set) (a : Str) → has (difference s t) a ≡ (has s a && not (has t a))
  pub contains-list : (s : Set) (a : Str) → contains (list s) a ≡ has s a
  pub list-AllOnce : (s : Set) → AllOnce (list s)
  pub is_superset_iff :
      (s t : Set) → (is_superset s t ≡ true) ↔ ((a : Str) → has t a ≡ true → has s a ≡ true)

-- `for _, x := range xs { s.Insert(x) }`
module _ (S : StringSet) where
  unfoldable pub insert_all : S.Set → List Str → S.Set
  insert_all s [] = s
  insert_all s (x ∷ xs) = insert_all (S.insert s x) xs

  pub has-insert_all :
      (s : S.Set) (xs : List Str) (a : Str)
      → S.has (insert_all s xs) a ≡ (contains xs a || S.has s a)
  unfolding insert_all
  has-insert_all s [] a = refl
  has-insert_all s (x ∷ xs) a =
      ground (arith, has-insert_all (S.insert s x) xs a, S.has-insert s x a)
