-- ===== src/Sorting/Search.antt =====
-- The binary search of `sort.Search` finds the first index at which a monotone test holds.
use cpo.Base.{
  ℕ, zero, suc, ◌+◌, ◌-◌, ◌/◌, ◌≤◌, ◌<◌, ◌≡◌, inl, inr, Bool, true, false, arith, ltb, Bool-cases,
}
use cpo.Sorting.{search_loop, search_first}

-- Once the test holds it holds further on.
abbrev pub IsMonotone : (ℕ → Bool) → Type 0
IsMonotone f = (i j : ℕ) → i ≤ j → f i ≡ true → f j ≡ true

-- `r` splits the range: the test fails below it and holds from it on.
pub record IsFirst (n : ℕ) (f : ℕ → Bool) (r : ℕ) : Type 0 where
  pub within : r ≤ n
  pub fails_below : (i : ℕ) → i < r → f i ≡ false
  pub holds_from : (i : ℕ) → r ≤ i → i < n → f i ≡ true

module _ (n : ℕ) (f : ℕ → Bool) (mono : IsMonotone f) where
  fails_down : (i j : ℕ) → i ≤ j → f j ≡ false → f i ≡ false
  fails_down i j l h = elim (Bool-cases (f i)) [ inl p ↦ cc (mono i j l p) | inr p ↦ p ]

  search_loop-IsFirst :
      (k i j : ℕ)
      → j - i ≤ k
      → i ≤ j
      → j ≤ n
      → ((m : ℕ) → m < i → f m ≡ false)
      → ((m : ℕ) → j ≤ m → m < n → f m ≡ true)
      → IsFirst n f (search_loop k f i j)
  unfolding search_loop
  search_loop-IsFirst zero i j fuel l b lo hi = record {
    within = omega arith;
    fails_below = lo;
    holds_from = λ m p q. hi m (omega arith) q;
  }
  search_loop-IsFirst (suc k) i j fuel l b lo hi = elim (Bool-cases (ltb i j)) [
    | inr p ↦
        rw (p, search_loop)
          (record {
            within = omega arith;
            fails_below = lo;
            holds_from = λ m q r. hi m (ground arith) r;
          })
    | inl p ↦
        rw (p, search_loop)
          (elim (Bool-cases (f ((i + j) / 2))) [
            | inl t ↦
                rw (t, search_loop)
                  (search_loop-IsFirst k i ((i + j) / 2) (ground arith) (ground arith)
                    (ground arith) lo (λ m q r. mono ((i + j) / 2) m q t))
            | inr t ↦
                rw (t, search_loop)
                  (search_loop-IsFirst k ((i + j) / 2 + 1) j (ground arith) (ground arith) b
                    (λ m q. fails_down m ((i + j) / 2) (omega arith) t) hi)
          ])
  ]

  pub search_first-IsFirst : IsFirst n f (search_first n f)
  search_first-IsFirst =
      search_loop-IsFirst n 0 n (omega arith) (omega arith) (omega arith)
        (λ m q. absurd (omega arith)) (λ m q r. absurd (omega arith))
