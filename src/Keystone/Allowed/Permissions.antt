-- ===== src/Keystone/Allowed/Permissions.antt =====
-- The permission maps: a key names a namespace and a resource, or a path, and its values are verbs.
use cpo.Base.{
  ◌==◌, Bool, true, false, ◌&&◌, Option, none, some, List, [], ◌∷◌, if◌then◌else◌, Str, str, nat_eq,
  list_eq,
}
use cpo.Strings.{split, trim_space}
use cpo.Sets.{StringSet, insert_all}
use cpo.Keystone.Policy.{Assoc, Attributes, star}
use cpo.Keystone.Allowed.Definition.{get_allowed}

module _ (S : StringSet) where
  -- The set of the listed verbs, with the request's own verb where "*" is listed.
  unfoldable pub allowed_verbs : List Str → Str → S.Set
  unfolding insert_all
  allowed_verbs value verb =
      let verbs = insert_all S S.empty value in
      if S.has verbs star then S.insert verbs verb else verbs

module _ (S : StringSet) (unmarshal : Str → Option (List Str)) where
  -- `allowed.Has(str)`, and false where `getAllowed` returns an error.
  unfoldable pub definition_has : Str → Str → Bool
  definition_has definition str = elim (get_allowed S unmarshal definition str) [
    | none ↦ false
    | some allowed ↦ S.has allowed str
  ]

  -- One round of the loop over the map: whether this entry returns true.
  entry_parts : List Str → List Str → Attributes → Bool
  unfolding definition_has allowed_verbs
  entry_parts (ns_def ∷ res_def ∷ []) value attr =
      definition_has (trim_space ns_def) attr.namespace
      && (definition_has (trim_space res_def) attr.resource
          && S.has (allowed_verbs S value attr.verb) attr.verb)
  entry_parts _ value attr = false

  unfoldable pub entry_allowed : Str → List Str → Attributes → Bool
  unfolding entry_parts
  entry_allowed key value attr = entry_parts (split key b'/') value attr

  unfoldable pub resource_permission_allowed : Assoc → Attributes → Bool
  unfolding entry_allowed
  resource_permission_allowed [] attr = false
  resource_permission_allowed ((key, value) ∷ spec) attr =
      if entry_allowed key value attr then true else resource_permission_allowed spec attr

module _ (S : StringSet) where
  unfoldable pub non_resource_permission_allowed : Assoc → Attributes → Bool
  unfolding allowed_verbs
  non_resource_permission_allowed [] attr = false
  non_resource_permission_allowed ((key, value) ∷ spec) attr =
      if key == attr.path && S.has (allowed_verbs S value attr.verb) attr.verb
      then true
      else non_resource_permission_allowed spec attr
