-- ===== src/Keystone/Sync/Loop.antt =====
-- The loops of `syncData` over the data types.
use mathlib.Core.Path.{subst}
use cpo.Base.{
  ◌≡◌, refl, sym, ap, ◌∙◌, ◌==◌, true, false, List, [], ◌∷◌, Str, contains, arith, Bool-cases, inl,
  inr, nat_eq, list_eq,
}
use cpo.Exec.{ok, ◌>>◌, continue-runs}
use cpo.Keystone.Sync.Cluster.{Cluster}
use cpo.Keystone.Sync.Steps.{Sync, for_type}

module _ (C : Cluster) (t : Str) (step : Sync C (Unit {0})) where
  pub for_type-idle :
      (types : List Str) (s : C.State)
      → contains types t ≡ false
      → (for_type C t step types s).1 ≡ s
  unfolding for_type
  for_type-idle [] s h = refl
  for_type-idle (dt ∷ types) s h =
      let e : (dt == t) ≡ false = ground arith in rw e (for_type-idle types s (ground arith))

module _ (C : Cluster) (t : Str) (step : Sync C (Unit {0})) (R : C.State → C.State → Type 0)
    (trans : (a b c : C.State) → R a b → R b c → R a c)
    (runs : (s : C.State) → (step s).0 ≡ ok tt → R s (step s).1) where
  -- A loop over data types that have `t` runs the step once or more often.
  pub for_type-runs :
      (types : List Str) (s : C.State)
      → contains types t ≡ true
      → (for_type C t step types s).0 ≡ ok tt
      → R s (for_type C t step types s).1
  unfolding for_type
  for_type-runs [] s c h = cc
  for_type-runs (dt ∷ types) s c h = elim (Bool-cases (dt == t)) [
    | inr e ↦
        let k : (for_type C t step types s).0 ≡ ok tt = rw (e, for_type) at h in
        rw e (for_type-runs types s (ground arith) k)
    | inl e ↦
        let k : ((step >> for_type C t step types) s).0 ≡ ok tt = rw (e, for_type) at h in
        let (_, a, r) = continue-runs (step s).0 (λ _. for_type C t step types) (step s).1 tt k in
        let s1 = (step s).1 in
        let first : R s s1 = runs s a in
        let k' : (for_type C t step types s1).0 ≡ ok tt = sym (ap (λ x. x.0) r) ∙ k in
        rw e (
          subst (R s) (sym (ap (λ x. x.1) r)) (elim (Bool-cases (contains types t)) [
            | inl more ↦ trans s s1 _ first (for_type-runs types s1 more k')
            | inr done ↦ subst (R s) (sym (for_type-idle C t step types s1 done)) first
          ]))
  ]
