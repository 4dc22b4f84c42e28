-- ===== src/Keystone/Authorize/Whitelist.antt =====
-- The policy list is a whitelist: a request is allowed exactly if a policy that speaks of the user
-- allows it, and denied where none does.
use mathlib.Core.Path.{subst}
use mathlib.Core.Option.{some-injective}
use cpo.Base.{
  ℕ, zero, suc, ◌≡◌, refl, ◌↔◌, Bool, true, false, ◌||◌, not, Option, none, some, List, [], ◌∷◌,
  Str, str, arith, contains, get_elem?, Bool-cases, Option-cases, sym, ◌∙◌, ◌⊎◌, ◌≢◌, inl, inr,
  nat_eq, list_eq,
}
use cpo.Sets.{StringSet, has-insert_all}
use cpo.Keystone.Policy.{
  Assoc, lookup, ResourcePolicySpec, Policy, UserInfo, Attributes, deny, allow, roles_key,
  project_name,
}
use cpo.Keystone.Match.{resource_matches}
use cpo.Keystone.Match.Meaning.{resource_matches-panics}
use cpo.Keystone.Authorize.{values_set, users_match, policy_allows, authorize}

-- The values that a map holds under a key.
abbrev pub values_of : Assoc → Str → List Str
values_of m key = elim (lookup m key) [ none ↦ [] | some val ↦ val ]

-- Every value of the first list stands in the second.
abbrev pub Within : List Str → List Str → Type 0
Within xs ys = (a : Str) → contains xs a ≡ true → contains ys a ≡ true

-- A policy speaks of a user: without `users` of everybody, else of those who have all the roles
-- and all the projects that it lists.
abbrev pub SpeaksOf : Option Assoc → UserInfo → Type 0
SpeaksOf none user = Unit
SpeaksOf (some users) user =
    Within (values_of users (str "roles")) (values_of user.extra roles_key)
    × Within (values_of users (str "projects")) (values_of user.extra project_name)

both-true : (x y : Bool) → x ≡ true → y ≡ true → not (not x || not y) ≡ true
both-true x y h k = ground arith

module _ (S : StringSet) where
  has-values_set :
      (m : Assoc) (key a : Str) → S.has (values_set S m key) a ≡ contains (values_of m key) a
  unfolding values_set
  has-values_set m key a = elim (Option-cases (lookup m key)) [
    | inl e ↦ rw (e, values_of, values_set) (S.has-empty a)
    | inr (val, e) ↦
        rw (e, values_of, values_set)
          (ground (arith, has-insert_all S S.empty val a, S.has-empty a))
  ]

  superset_Within :
      (m n : Assoc) (j k : Str)
      → (S.is_superset (values_set S m j) (values_set S n k) ≡ true)
        ↔ Within (values_of n k) (values_of m j)
  superset_Within m n j k = (
    λ h a c.
        sym (has-values_set m j a)
        ∙ (S.is_superset_iff (values_set S m j) (values_set S n k)).0 h a
            (has-values_set n k a ∙ c),
    λ w.
        (S.is_superset_iff (values_set S m j) (values_set S n k)).1
          (λ a c. has-values_set m j a ∙ w a (sym (has-values_set n k a) ∙ c)),
  )

  -- The set comparison says whether the policy speaks of the user.
  pub users_match-SpeaksOf :
      (u : Option Assoc) (user : UserInfo) → (users_match S u user ≡ true) ↔ SpeaksOf u user
  unfolding users_match
  users_match-SpeaksOf none user = (λ _. tt, λ _. refl)
  users_match-SpeaksOf (some users) user =
      let r = superset_Within user.extra users roles_key (str "roles") in
      let p = superset_Within user.extra users project_name (str "projects") in
      (λ h. (r.0 (ground arith), p.0 (ground arith)), λ h. both-true _ _ (r.1 h.0) (p.1 h.1))

-- The policies whose resource specification, where they have one, sets its pointers.
abbrev pub IsComplete : Policy → Type 0
IsComplete p =
    (spec : ResourcePolicySpec)
    → p.resource_spec ≡ some spec
    → (spec.api_group ≢ none) × (spec.namespace ≢ none)

abbrev pub AreComplete : List Policy → Type 0
AreComplete [] = Unit
AreComplete (p ∷ pl) = IsComplete p × AreComplete pl

module _ (S : StringSet) (unmarshal : Str → Option (List Str)) (a : Attributes) where
  -- Some policy of the list speaks of the user and allows the request.
  abbrev pub IsGranted : List Policy → Type 0
  IsGranted pl =
      (i : ℕ) × (p : Policy) × (get_elem? pl i ≡ some p)
      × SpeaksOf p.users a.user
      × (policy_allows S unmarshal p a ≡ some true)

  policy_allows_total : (p : Policy) → IsComplete p → policy_allows S unmarshal p a ≢ none
  unfolding policy_allows
  policy_allows_total p c h = elim (Option-cases p.resource_spec) [
    | inl e ↦ ground arith
    | inr (spec, e) ↦
        let (g, n) = c spec e in
        let k : resource_matches spec p.matches a ≡ none = ground arith in
        elim ((resource_matches-panics spec p.matches a).0 k) [
          | inl x ↦ g x
          | inr (_, _, _, x) ↦ n x
        ]
  ]

  -- A policy that grants nothing leaves the answer to the rest of the list.
  head-cases :
      (p : Policy) (pl : List Policy)
      → IsComplete p
      → ((users_match S p.users a.user ≡ true) × (policy_allows S unmarshal p a ≡ some true))
        ⊎ ((¬ (SpeaksOf p.users a.user × (policy_allows S unmarshal p a ≡ some true)))
            × (authorize S unmarshal (p ∷ pl) a ≡ authorize S unmarshal pl a))
  unfolding authorize
  head-cases p pl c = elim (Bool-cases (users_match S p.users a.user)) [
    | inr u ↦ inr (λ h. cc ((users_match-SpeaksOf S p.users a.user).1 h.0), rw u)
    | inl u ↦ elim (Option-cases (policy_allows S unmarshal p a)) [
      | inl e ↦ absurd (policy_allows_total p c e)
      | inr (true, e) ↦ inl (u, e)
      | inr (false, e) ↦ inr (λ h. cc h.1, ground arith)
    ]
  ]

  not-IsGranted_nil : ¬ IsGranted []
  not-IsGranted_nil (i, q, at, s, t) = cc

  not-IsGranted :
      (p : Policy) (pl : List Policy)
      → ¬ (SpeaksOf p.users a.user × (policy_allows S unmarshal p a ≡ some true))
      → ¬ IsGranted pl
      → ¬ IsGranted (p ∷ pl)
  not-IsGranted p pl skip rest (zero, q, at, s, t) = skip (
      subst (λ (r : Policy). SpeaksOf r.users a.user × (policy_allows S unmarshal r a ≡ some true))
        (sym (some-injective p q at)) (s, t))
  not-IsGranted p pl skip rest (suc i, q, at, s, t) = rest (i, q, at, s, t)

  -- A list of complete policies allows the request if it is granted, and else denies it: there is
  -- no third answer and no panic.
  pub authorize-decides :
      (pl : List Policy)
      → AreComplete pl
      → ((authorize S unmarshal pl a ≡ some allow) × IsGranted pl)
        ⊎ ((authorize S unmarshal pl a ≡ some deny) × ¬ IsGranted pl)
  unfolding authorize
  authorize-decides [] c = inr (refl, not-IsGranted_nil)
  authorize-decides (p ∷ pl) c = elim (head-cases p pl c.0) [
    | inl (u, e) ↦ inl (ground arith, (0, p, refl, (users_match-SpeaksOf S p.users a.user).0 u, e))
    | inr (skip, e) ↦ elim (authorize-decides pl c.1) [
      | inl (r, (i, q, at, s, t)) ↦ inl (e ∙ r, (suc i, q, at, s, t))
      | inr (r, none_grants) ↦ inr (e ∙ r, not-IsGranted p pl skip none_grants)
    ]
  ]
