-- ===== src/OpenStack/Lbaas/Wait/Attempts.antt =====
-- What package wait of k8s.io/apimachinery documents of `ExponentialBackoff`: the condition is tested up
-- to `Steps` times, with a pause after each test that is not met, until it is met or fails.
use cpo.Base.{
  ℕ, zero, suc, ◌<◌, ◌≤◌, ◌+◌, ◌≡◌, refl, ap, ◌∙◌, inl, inr, Bool, true, false, arith, Bool-cases,
}
use cpo.Exec.{Result, ok, err, Exec, Result-cases}
use cpo.OpenStack.Lbaas.Api.{Fault, timeout}

module _ {S : Type 0} (pause : ℕ → S → S) (m : Exec Fault S Bool) where
  abbrev pub attempts : ℕ → S → Result Fault (Unit {0}) × S
  attempts zero s = (err timeout, s)
  attempts (suc n) s =
      let (r, s') = m s in
      let more = attempts n (pause n s') in
      elim r [ ok true ↦ (ok tt, s') | ok false ↦ more | err e ↦ (err e, s') ]

  -- The state in which test number `k` is made, of `n` tests.
  abbrev pub reached : ℕ → ℕ → S → S
  reached n zero s = s
  reached zero (suc k) s = s
  reached (suc n) (suc k) s = reached n k (pause n (m s).1)

  -- The tests before number `k` are not met.
  abbrev pub Pending : ℕ → ℕ → S → Type 0
  Pending n k s = (i : ℕ) → i < k → (m (reached n i s)).0 ≡ ok false

  -- Test number `k` of `n` is the first that is met.
  abbrev pub MetAt : ℕ → ℕ → S → Type 0
  MetAt n k s = (k < n) × Pending n k s × ((m (reached n k s)).0 ≡ ok true)

  Pending-step :
      (n k : ℕ) (s : S)
      → (m s).0 ≡ ok false
      → Pending n k (pause n (m s).1)
      → Pending (suc n) (suc k) s
  Pending-step n k s e p zero h = e
  Pending-step n k s e p (suc i) h = p i (omega arith)

  pub attempts-met : (n : ℕ) (s : S) → (attempts n s).0 ≡ ok tt → (k : ℕ) × MetAt n k s
  attempts-met zero s h = cc
  attempts-met (suc n) s h = elim (Result-cases (m s).0) [
    | inl (x, e) ↦ (let k : err x ≡ ok tt = rw (e, attempts) at h in cc)
    | inr (b, e) ↦ elim (Bool-cases b) [
      | inl t ↦
          let g : (m s).0 ≡ ok true = e ∙ ap ok t in (0, (omega arith, (λ i l. elim l [ ]), g))
      | inr f ↦
          let g : (m s).0 ≡ ok false = e ∙ ap ok f in
          let (k, (l, p, r)) = attempts-met n (pause n (m s).1) (rw (g, attempts) at h) in
          (suc k, (omega arith, Pending-step n k s g p, r))
    ]
  ]

  pub met-attempts :
      (n k : ℕ) (s : S)
      → MetAt n k s
      → ((attempts n s).0 ≡ ok tt) × ((attempts n s).1 ≡ (m (reached n k s)).1)
  met-attempts zero k s (h, _, _) = elim h [ ]
  met-attempts (suc n) zero s (h, p, e) = rw (e, attempts) (refl, refl)
  met-attempts (suc n) (suc k) s (h, p, e) =
      rw (p 0 (omega arith), attempts)
        (met-attempts n k _ (omega arith, (λ i l. p (suc i) (omega arith)), e))

  -- What a test adds at most once, and a pause not at all, is added at most once for each attempt.
  pub attempts-le :
      (count : S → ℕ) (n : ℕ) (s : S)
      → ((s : S) → count (m s).1 ≤ count s + 1)
      → ((i : ℕ) (s : S) → count (pause i s) ≡ count s)
      → count (attempts n s).1 ≤ count s + n
  attempts-le count zero s once still = omega arith
  attempts-le count (suc n) s once still = elim (Result-cases (m s).0) [
    | inl (x, e) ↦ rw (e, attempts) (omega (arith, once s))
    | inr (b, e) ↦ elim (Bool-cases b) [
      | inl t ↦ let g : (m s).0 ≡ ok true = e ∙ ap ok t in rw (g, attempts) (omega (arith, once s))
      | inr f ↦
          let g : (m s).0 ≡ ok false = e ∙ ap ok f in
          rw (g, attempts)
            (omega
              (arith, once s, still n (m s).1, attempts-le count n (pause n (m s).1) once still))
    ]
  ]

  -- Without an answer that is met or fails, the time is up.
  pub attempts-timeout : (n : ℕ) (s : S) → Pending n n s → (attempts n s).0 ≡ err timeout
  attempts-timeout zero s p = refl
  attempts-timeout (suc n) s p =
      rw (p 0 (omega arith), attempts) (attempts-timeout n _ (λ i l. p (suc i) (omega arith)))
