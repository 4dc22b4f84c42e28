-- ===== src/Keystone/Authorize/Sorted.antt =====
-- `findString` sorts the lists of the policies in place. A later request gets the answer that it
-- would have got from the lists as the operator wrote them.
use cpo.Base.{
  ◌≡◌, refl, sym, ◌∙◌, Option, none, some, List, [], ◌∷◌, map, Str, arith, Option-cases, inl, inr,
  nat_eq, list_eq,
}
use cpo.Sorting.{sort, str_order}
use cpo.Sorting.Sorted.{contains-sort}
use cpo.Sets.{StringSet}
use cpo.Keystone.Find.{find_string-contains}
use cpo.Keystone.Policy.{
  lookup, PolicyMatch, ResourcePolicySpec, NonResourcePolicySpec, Policy, Attributes, UserInfo,
  star,
}
use cpo.Keystone.Match.{
  in_list, find_any, find_extra, match_kind, match_all, resource_matches, non_resource_matches,
}
use cpo.Keystone.Authorize.{policy_allows, authorize}
use mathlib.Core.Option

-- What `sort.Strings` leaves of each list that a policy hands to `findString`.
abbrev pub sort_match : PolicyMatch → PolicyMatch
sort_match m = record m { values = sort m.values }

abbrev pub sort_resource : ResourcePolicySpec → ResourcePolicySpec
sort_resource r = record r { verbs = sort r.verbs; resources = sort r.resources }

abbrev pub sort_non_resource : NonResourcePolicySpec → NonResourcePolicySpec
sort_non_resource r = record r { verbs = sort r.verbs }

abbrev pub sort_policy : Policy → Policy
sort_policy p = record p {
  resource_spec = Option.map sort_resource p.resource_spec;
  non_resource_spec = Option.map sort_non_resource p.non_resource_spec;
  matches = map sort_match p.matches;
}

in_list-sort : (a : Str) (l : List Str) → in_list a (sort l) ≡ in_list a l
in_list-sort a l =
    find_string-contains a (sort l) ∙ contains-sort a l ∙ sym (find_string-contains a l)

find_any-sort : (own values : List Str) → find_any own (sort values) ≡ find_any own values
unfolding find_any
find_any-sort [] values = refl
find_any-sort (x ∷ own) values = rw (in_list-sort x values, find_any-sort own values)

find_extra-sort :
    (user : UserInfo) (key : Str) (values : List Str)
    → find_extra user key (sort values) ≡ find_extra user key values
unfolding find_extra
find_extra-sort user key values = elim (Option-cases (lookup user.extra key)) [
  | inl e ↦ rw (e, find_extra) refl
  | inr (val, e) ↦ rw (e, find_extra) (find_any-sort val values)
]

match_kind-sort :
    (m : PolicyMatch) (user : UserInfo) → match_kind (sort_match m) user ≡ match_kind m user
unfolding match_kind
match_kind-sort m user = simp (in_list-sort, find_any-sort, find_extra-sort)

match_all-sort :
    (ms : List PolicyMatch) (user : UserInfo)
    → match_all (map sort_match ms) user ≡ match_all ms user
unfolding match_all
match_all-sort [] user = refl
match_all-sort (m ∷ ms) user =
    ground (arith, in_list-sort star m.values, match_kind-sort m user, match_all-sort ms user)

module _ (ms : List PolicyMatch) (a : Attributes) where
  resource_matches-sort :
      (r : ResourcePolicySpec)
      → resource_matches (sort_resource r) (map sort_match ms) a ≡ resource_matches r ms a
  unfolding resource_matches
  resource_matches-sort r = ground (
    arith,
    in_list-sort star r.resources,
    in_list-sort a.resource r.resources,
    in_list-sort star r.verbs,
    in_list-sort a.verb r.verbs,
    match_all-sort ms a.user,
  )

  non_resource_matches-sort :
      (r : NonResourcePolicySpec)
      → non_resource_matches (sort_non_resource r) (map sort_match ms) a
        ≡ non_resource_matches r ms a
  unfolding non_resource_matches
  non_resource_matches-sort r = ground (
    arith,
    in_list-sort [] r.verbs,
    in_list-sort star r.verbs,
    in_list-sort a.verb r.verbs,
    match_all-sort ms a.user,
  )

module _ (S : StringSet) (unmarshal : Str → Option (List Str)) (a : Attributes) where
  policy_allows-sort :
      (p : Policy) → policy_allows S unmarshal (sort_policy p) a ≡ policy_allows S unmarshal p a
  unfolding policy_allows
  policy_allows-sort p = by_specs p.resource_spec p.non_resource_spec refl refl
    where
      by_specs :
          (r : Option ResourcePolicySpec) (n : Option NonResourcePolicySpec)
          → p.resource_spec ≡ r
          → p.non_resource_spec ≡ n
          → policy_allows S unmarshal (sort_policy p) a ≡ policy_allows S unmarshal p a
      by_specs none none er en = ground arith
      by_specs none (some n) er en = ground (arith, non_resource_matches-sort p.matches a n)
      by_specs (some r) none er en = ground (arith, resource_matches-sort p.matches a r)
      by_specs (some r) (some n) er en =
          ground
            (arith, resource_matches-sort p.matches a r, non_resource_matches-sort p.matches a n)

  -- Sorting the lists of every policy changes no answer.
  pub authorize-sort :
      (pl : List Policy) → authorize S unmarshal (map sort_policy pl) a ≡ authorize S unmarshal pl a
  unfolding authorize
  authorize-sort [] = refl
  authorize-sort (p ∷ pl) = ground (arith, policy_allows-sort p, authorize-sort pl)
