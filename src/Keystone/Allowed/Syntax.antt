-- ===== src/Keystone/Allowed/Syntax.antt =====
-- The forms of a namespace or resource definition, as the policy documentation writes them.
use cpo.Base.{
  ℕ, ◌-◌, ◌==◌, ◌≡◌, refl, Bool, true, false, not, ◌||◌, List, [], ◌∷◌, ◌++◌, arith, Str, length,
  length-append, contains, contains-append, nat_eq, list_eq, some,
}
use cpo.Strings.{index, replace_byte}
use cpo.Strings.Bytes.{index-append, replace_byte-append, replace_byte-none}
use cpo.Keystone.Policy.{star}

pub data Definition : Type 0 where
  anything : Definition
  exactly : Str → Definition
  except : Str → Definition
  among : List Str → Definition
  outside : List Str → Definition

-- The items in quotes, separated by a comma and a space.
abbrev body : ℕ → List Str → Str
body q [] = []
body q (a ∷ []) = q ∷ (a ++ q ∷ [])
body q (a ∷ b ∷ items) = q ∷ (a ++ q ∷ b',' ∷ b' ' ∷ body q (b ∷ items))

abbrev pub list_text : ℕ → List Str → Str
list_text q items = b'[' ∷ (body q items ++ b']' ∷ [])

abbrev pub render : Definition → Str
render anything = star
render (exactly s) = s
render (except s) = b'!' ∷ s
render (among items) = list_text b'\'' items
render (outside items) = b'!' ∷ list_text b'\'' items

-- What a definition means for a value that is not empty.
abbrev pub grants : Definition → Str → Bool
grants anything s = true
grants (exactly t) s = t == s
grants (except t) s = not (t == s || t == star)
grants (among items) s = contains items s || contains items star
grants (outside items) s = not (contains items s || contains items star)

-- No byte of these texts has a meaning of its own in a definition.
abbrev pub IsPlain : Str → Type 0
IsPlain s =
    (contains s b'!' ≡ false)
    × (contains s b'[' ≡ false)
    × (contains s b']' ≡ false)
    × (contains s b'\'' ≡ false)

abbrev pub ArePlain : List Str → Type 0
ArePlain [] = Unit
ArePlain (a ∷ items) = IsPlain a × ArePlain items

contains-body : (items : List Str) → ArePlain items → contains (body b'\'' items) b']' ≡ false
contains-body [] h = refl
contains-body (a ∷ []) h = ground (arith, contains-append a (b'\'' ∷ []) b']')
contains-body (a ∷ b ∷ items) h = ground (
  arith,
  contains-append a (b'\'' ∷ b',' ∷ b' ' ∷ body b'\'' (b ∷ items)) b']',
  contains-body (b ∷ items) h.1,
)

-- The closing bracket is the last byte.
pub index-list_text :
    (items : List Str)
    → ArePlain items
    → index (list_text b'\'' items) b']' ≡ some (length (list_text b'\'' items) - 1)
index-list_text items h =
    let e : index (body b'\'' items ++ b']' ∷ []) b']' ≡ some (length (body b'\'' items)) =
      index-append (body b'\'' items) [] b']' (contains-body items h) in
    ground (arith, length-append (body b'\'' items) (b']' ∷ []))

replace_byte-body :
    (items : List Str)
    → ArePlain items
    → replace_byte b'\'' b'"' (body b'\'' items) ≡ body b'"' items
replace_byte-body [] h = refl
replace_byte-body (a ∷ []) h =
    ground
      (arith, replace_byte-append b'\'' b'"' a (b'\'' ∷ []), replace_byte-none b'\'' b'"' a h.0.3)
replace_byte-body (a ∷ b ∷ items) h = ground (
  arith,
  replace_byte-append b'\'' b'"' a (b'\'' ∷ b',' ∷ b' ' ∷ body b'\'' (b ∷ items)),
  replace_byte-none b'\'' b'"' a h.0.3,
  replace_byte-body (b ∷ items) h.1,
)

-- With its quotes replaced the list is the JSON text of the items.
pub replace_byte-list_text :
    (items : List Str)
    → ArePlain items
    → replace_byte b'\'' b'"' (list_text b'\'' items) ≡ list_text b'"' items
replace_byte-list_text items h = ground (
  arith,
  replace_byte-append b'\'' b'"' (body b'\'' items) (b']' ∷ []),
  replace_byte-body items h,
)
