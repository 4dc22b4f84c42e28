-- ===== src/Validator/Accepted.antt =====
-- `Populate` accepts exactly the values that satisfy what the tags say.
use cpo.Base.{
  ◌≡◌, refl, sym, ◌∙◌, Bool, true, false, ◌&&◌, List, Str, all, arith, ◌⊎◌, inl, inr, nat_eq,
  list_eq,
}
use cpo.Exec.{Result, ok, Exec, Result-cases, ◌>>◌}
use cpo.Maps.{Map}
use cpo.Validator.Fields.{Regexps}
use cpo.Validator.Populate.{
  Refusal, Validator, fill_defaults, populate_values, check_deps, check_precls, check_patterns,
  populate,
}
use cpo.Validator.Accepts.{
  is_ok, deps_met, precls_met, pattern_met, value_met, written, check_deps-all, check_precls-all,
  check_patterns-all, populate_values-all, populate_values-written,
}

module _ (R : Regexps) (v : Validator R) where
  -- What the tags ask of a struct with values in it.
  abbrev fields_met : List Str → Bool
  fields_met out =
      all (deps_met out) v.deps
      && (all (precls_met out) v.precls && all (pattern_met R out) v.patterns)

  -- And what they ask of the values that are given for a struct.
  abbrev pub accepts : Map Str → List Str → Bool
  accepts given out =
      all (value_met R v.value_exprs given) v.names && fields_met (written R given v.names out)

  abbrev checks : Exec Refusal (List Str) (Unit {0})
  checks = do
    λ out. (check_deps R out v.deps, out)
    λ out. (check_precls R out v.precls, out)
    λ out. (check_patterns R out v.patterns, out)

  abbrev Checked : List Str → Result Refusal (Unit {0}) × List Str → Type 0
  Checked out r =
      ((fields_met out ≡ true) × (r ≡ (ok tt, out)))
      ⊎ ((fields_met out ≡ false) × (is_ok r.0 ≡ false))

  checks-Checked : (out : List Str) → Checked out (checks out)
  checks-Checked out =
      let d = check_deps-all R out v.deps in
      let p = check_precls-all R out v.precls in
      let m = check_patterns-all R out v.patterns in
      elim (Result-cases (check_deps R out v.deps)) [
        | inl (e, q) ↦ (let k = rw q at d in inr (ground arith, rw q refl))
        | inr (_, q) ↦ elim (Result-cases (check_precls R out v.precls)) [
          | inl (e, q') ↦ (let k = rw q' at p in inr (ground arith, rw q (rw q' refl)))
          | inr (_, q') ↦ elim (Result-cases (check_patterns R out v.patterns)) [
            | inl (e, q'') ↦ (let k = rw q'' at m in inr (ground arith, rw q (rw q' (rw q'' refl))))
            | inr (_, q'') ↦
                let a = rw q at d in
                let b = rw q' at p in
                let c = rw q'' at m in inl (ground arith, rw q (rw q' (rw q'' refl)))
          ]
        ]
      ]

  -- `Populate` accepts the given values, with the defaults added, exactly if each is not empty and
  -- none is missing that is required, and in the struct that they make each field that is set has
  -- exactly one field of each group that it depends on, none of the fields that it precludes, and a
  -- value that its pattern matches. It then leaves this struct.
  pub populate-accepts :
      (given : Map Str) (out : List Str)
      → let filled = fill_defaults R v.names v.value_exprs.default_val given in
        ((accepts filled out ≡ true)
          × (populate R v given out ≡ (ok tt, written R filled v.names out)))
        ⊎ ((accepts filled out ≡ false) × (is_ok (populate R v given out).0 ≡ false))
  unfolding populate
  populate-accepts given out =
      let filled = fill_defaults R v.names v.value_exprs.default_val given in
      let values = populate_values R v.value_exprs filled v.names in
      let a = populate_values-all R v.value_exprs filled v.names out in
      elim (Result-cases (values out).0) [
        | inl (e, q) ↦ (let k = rw q at a in inr (ground arith, rw q refl))
        | inr (_, q) ↦
            let k : true ≡ all (value_met R v.value_exprs filled) v.names = rw q at a in
            let w : (values out).1 ≡ written R filled v.names out =
              populate_values-written R v.value_exprs filled v.names out (a ∙ sym k) in
            elim (checks-Checked (written R filled v.names out)) [
              | inl (m, r) ↦ inl (ground arith, rw q (rw w r))
              | inr (m, r) ↦ inr (ground arith, rw q (rw w r))
            ]
      ]
