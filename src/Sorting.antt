-- ===== src/Sorting.antt =====
-- What the program uses of Go's package sort: `sort.Strings` and `sort.SearchStrings`
-- (used by pkg/identity/keystone/authorizer.go). The order is an interface; byte strings are
-- compared lexicographically.
pub mod Sorted
pub mod Search
use cpo.Base.{
  ℕ, zero, suc, ◌+◌, ◌/◌, ◌≡◌, refl, ◌⊎◌, inl, inr, Bool, true, false, not, ◌&&◌, ◌||◌, Option,
  none, some, List, [], ◌∷◌, arith, leb, ltb, nat_beq, nat_beq_iff, if◌then◌else◌, Str, length,
  get_elem?, Bool-cases,
}

pub record Order {ℓ} (A : Type ℓ) : Type ℓ where
  pub le : A → A → Bool
  pub total : (a b : A) → le a b ≡ false → le b a ≡ true
  pub trans : (a b c : A) → le a b ≡ true → le b c ≡ true → le a c ≡ true
  pub antisym : (a b : A) → le a b ≡ true → le b a ≡ true → a ≡ b

-- `a <= b` on Go strings.
abbrev pub str_le : Str → Str → Bool
str_le [] ys = true
str_le (x ∷ xs) [] = false
str_le (x ∷ xs) (y ∷ ys) = ltb x y || (nat_beq x y && str_le xs ys)

pub str_le_total : (a b : Str) → str_le a b ≡ false → str_le b a ≡ true
str_le_total [] b h = cc
str_le_total (x ∷ xs) [] h = refl
str_le_total (x ∷ xs) (y ∷ ys) h = ground (arith, str_le_total xs ys)

pub str_le_trans : (a b c : Str) → str_le a b ≡ true → str_le b c ≡ true → str_le a c ≡ true
str_le_trans [] b c h k = refl
str_le_trans (x ∷ xs) [] c h k = cc
str_le_trans (x ∷ xs) (y ∷ ys) [] h k = cc
str_le_trans (x ∷ xs) (y ∷ ys) (z ∷ zs) h k = ground (arith, str_le_trans xs ys zs)

pub str_le_antisym : (a b : Str) → str_le a b ≡ true → str_le b a ≡ true → a ≡ b
str_le_antisym [] [] h k = refl
str_le_antisym [] (y ∷ ys) h k = cc
str_le_antisym (x ∷ xs) [] h k = cc
str_le_antisym (x ∷ xs) (y ∷ ys) h k = ground (arith, str_le_antisym xs ys)

instance abbrev pub str_order : Order Str
str_order = record {
  le = str_le;
  total = str_le_total;
  trans = str_le_trans;
  antisym = str_le_antisym;
}

module _ {ℓ} {A : Type ℓ} ⦃o : Order A⦄ where
  -- The sorted list of the same values is unique, so any sort stands for `sort.Strings`.
  abbrev pub insert : A → List A → List A
  insert x [] = x ∷ []
  insert x (y ∷ ys) = if o.le x y then x ∷ y ∷ ys else y ∷ insert x ys

  abbrev pub sort : List A → List A
  sort [] = []
  sort (x ∷ xs) = insert x (sort xs)

  -- `list[i] >= a`, the test that `sort.SearchStrings` hands to `sort.Search`.
  abbrev pub at_least : List A → A → ℕ → Bool
  at_least l a i = elim (get_elem? l i) [ none ↦ true | some x ↦ o.le a x ]

-- The loop of `sort.Search`: `for i < j { h := (i + j) / 2; if !f(h) { i = h + 1 } else { j = h } }`,
-- on fuel.
unfoldable pub search_loop : ℕ → (ℕ → Bool) → ℕ → ℕ → ℕ
search_loop zero f i j = i
search_loop (suc k) f i j =
    let h = (i + j) / 2 in
    elim (ltb i j) [
      | true ↦ elim (f h) [ true ↦ search_loop k f i h | false ↦ search_loop k f (h + 1) j ]
      | false ↦ i
    ]

-- `sort.Search(n, f)`: the range shrinks each round, so `n` rounds are enough.
abbrev pub search_first : ℕ → (ℕ → Bool) → ℕ
search_first n f = search_loop n f 0 n
