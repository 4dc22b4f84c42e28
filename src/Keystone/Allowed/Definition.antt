-- ===== src/Keystone/Allowed/Definition.antt =====
-- `getAllowed`: the values that a namespace or resource definition allows.
use cpo.Base.{
  ◌-◌, ◌==◌, Bool, true, false, not, ◌&&◌, ◌||◌, Option, none, some, List, [], ◌∷◌, if◌then◌else◌,
  Str, length, drop, nat_eq, list_eq,
}
use cpo.Strings.{index_is, replace_byte}
use cpo.Sets.{StringSet}
use cpo.Keystone.Policy.{star}

module _ (S : StringSet) where
  -- The loop over the items of "['namespace1', 'namespace2']".
  unfoldable pub insert_items : S.Set → Str → List Str → S.Set
  insert_items allowed str [] = allowed
  insert_items allowed str (val ∷ items) =
      insert_items (if val == star then S.insert allowed str else S.insert allowed val) str items

-- The loop over the items of "!['namespace1', 'namespace2']": the variable `found`.
unfoldable pub found_item : Bool → Str → List Str → Bool
found_item found str [] = found
found_item found str (val ∷ items) =
    found_item (if val == str || val == star then true else found) str items

module _ (S : StringSet) (unmarshal : Str → Option (List Str)) where
  allowed_items : Str → Str → Option S.Set
  unfolding insert_items
  allowed_items definition str = elim (unmarshal (replace_byte b'\'' b'"' definition)) [
    | none ↦ none
    | some items ↦ some (insert_items S S.empty str items)
  ]

  excluded_items : Str → Str → Option S.Set
  unfolding found_item
  excluded_items definition str = elim (unmarshal (replace_byte b'\'' b'"' definition)) [
    | none ↦ none
    | some items ↦ if found_item false str items then none else some (S.insert S.empty str)
  ]

  -- `none` is the error. The last test is reached only where the definition is not empty, so
  -- `len(definition)-1` is no negative number.
  unfoldable pub get_allowed : Str → Str → Option S.Set
  unfolding allowed_items excluded_items
  get_allowed definition str =
      if definition == str || (definition == star || str == [])
      then some (S.insert S.empty str)
      else if index_is definition b'!' 0 && not (index_is definition b'[' 1)
      then (if drop 1 definition == str || drop 1 definition == star
          then none
          else some (S.insert S.empty str))
      else if index_is definition b'[' 0 && index_is definition b']' (length definition - 1)
      then allowed_items definition str
      else if index_is definition b'!' 0
          && (index_is definition b'[' 1 && index_is definition b']' (length definition - 1))
      then excluded_items (drop 1 definition) str
      else some S.empty
