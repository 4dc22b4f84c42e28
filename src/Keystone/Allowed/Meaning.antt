-- ===== src/Keystone/Allowed/Meaning.antt =====
-- `getAllowed` reads each form of a definition as it is meant.
use cpo.Base.{
  ◌==◌, ◌≡◌, refl, ◌≢◌, Bool, true, false, ◌||◌, Option, some, List, [], ◌∷◌, arith, Str, contains,
  str_eq_refl, str_eq_iff, nat_eq, list_eq, if◌then◌else◌,
}
use cpo.Strings.Bytes.{index-none}
use cpo.Sets.{StringSet}
use cpo.Keystone.Policy.{star}
use cpo.Keystone.Allowed.Definition.{insert_items, found_item, get_allowed}
use cpo.Keystone.Allowed.Permissions.{definition_has}
use cpo.Keystone.Allowed.Syntax.{
  Definition, anything, exactly, except, among, outside, render, grants, list_text, IsPlain,
  ArePlain, index-list_text, replace_byte-list_text,
}

found_item-contains :
    (b : Bool) (s : Str) (items : List Str)
    → found_item b s items ≡ (b || (contains items s || contains items star))
unfolding found_item
found_item-contains true s [] = refl
found_item-contains false s [] = refl
found_item-contains b s (x ∷ items) =
    ground (arith, found_item-contains (if x == s || x == star then true else b) s items)

module _ (S : StringSet) where
  has-insert_items :
      (t : S.Set) (s : Str) (items : List Str)
      → S.has (insert_items S t s items) s
        ≡ (S.has t s || (contains items s || contains items star))
  unfolding insert_items
  has-insert_items t s [] = ground arith
  has-insert_items t s (x ∷ items) = ground (
    arith,
    has-insert_items (S.insert t s) s items,
    has-insert_items (S.insert t x) s items,
    S.has-insert t s s,
    S.has-insert t x s,
    str_eq_refl s,
  )

-- The texts for which a definition has the meaning of its form.
abbrev pub IsWellFormed : Definition → Type 0
IsWellFormed anything = Unit
IsWellFormed (exactly t) = IsPlain t × (t ≢ star)
IsWellFormed (except t) = IsPlain t
IsWellFormed (among items) = ArePlain items
IsWellFormed (outside items) = ArePlain items

-- `json.Unmarshal` reads the JSON text of the items of a list form as these items.
abbrev pub Unmarshals : (Str → Option (List Str)) → Definition → Type 0
Unmarshals unmarshal (among items) = unmarshal (list_text b'"' items) ≡ some items
Unmarshals unmarshal (outside items) = unmarshal (list_text b'"' items) ≡ some items
Unmarshals unmarshal _ = Unit

module _ (S : StringSet) (unmarshal : Str → Option (List Str)) where
  has_only : (s : Str) → S.has (S.insert S.empty s) s ≡ true
  has_only s = ground (arith, S.has-insert S.empty s s, S.has-empty s, str_eq_refl s)

  -- A well-formed definition, written out as text, admits a plain and non-empty name exactly if it
  -- grants it, given that the text of a list is read as its items.
  pub definition_has-render :
      (d : Definition) (s : Str)
      → s ≢ []
      → IsPlain s
      → IsWellFormed d
      → Unmarshals unmarshal d
      → definition_has S unmarshal (render d) s ≡ grants d s
  unfolding definition_has get_allowed
  definition_has-render anything s ne plain h u = ground (arith, has_only s)
  definition_has-render (exactly t) s ne plain h u = ground (
    arith,
    has_only s,
    S.has-empty s,
    str_eq_iff t s,
    str_eq_iff t star,
    str_eq_iff s [],
    index-none t b'!' h.0.0,
    index-none t b'[' h.0.1,
  )
  definition_has-render (except t) s ne plain h u =
      ground (arith, has_only s, str_eq_iff (b'!' ∷ t) s, str_eq_iff s [], index-none t b'[' h.1)
  definition_has-render (among items) s ne plain h u = ground (
    arith,
    u,
    str_eq_iff (list_text b'\'' items) s,
    str_eq_iff s [],
    index-list_text items h,
    replace_byte-list_text items h,
    has-insert_items S S.empty s items,
    S.has-empty s,
  )
  definition_has-render (outside items) s ne plain h u = ground (
    arith,
    u,
    has_only s,
    str_eq_iff (b'!' ∷ list_text b'\'' items) s,
    str_eq_iff s [],
    index-list_text items h,
    replace_byte-list_text items h,
    found_item-contains false s items,
    S.has-empty s,
  )
