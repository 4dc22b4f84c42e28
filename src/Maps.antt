-- ===== src/Maps.antt =====
-- Go maps with text keys: an association list with one entry for each key, in the order in which
-- a `range` visits it.
pub mod Entries
pub mod Counting
use cpo.Base.{
  ◌≡◌, Bool, true, false, Option, none, some, List, [], ◌∷◌, ◌==◌, map, if◌then◌else◌, Str,
  contains, nat_eq, list_eq,
}

abbrev pub Map {ℓ} : Type ℓ → Type ℓ
Map V = List (Str × V)

module _ {ℓ} {V : Type ℓ} where
  -- `m[key] = v`
  abbrev pub put : Str → V → Map V → Map V
  put key v [] = (key, v) ∷ []
  put key v ((k, w) ∷ m) =
      let rest = put key v m in if k == key then (key, v) ∷ m else (k, w) ∷ rest

  -- `delete(m, key)`
  abbrev pub remove : Str → Map V → Map V
  remove key [] = []
  remove key ((k, w) ∷ m) = let rest = remove key m in if k == key then rest else (k, w) ∷ rest

  -- `v, ok := m[key]`
  abbrev pub get : Map V → Str → Option V
  get [] key = none
  get ((k, w) ∷ m) key = if k == key then some w else get m key

  abbrev pub keys : Map V → List Str
  keys [] = []
  keys ((k, _) ∷ m) = k ∷ keys m

  -- `_, ok := m[key]`
  abbrev pub has_key : Map V → Str → Bool
  has_key m key = contains (keys m) key

-- No text stands twice in the list.
abbrev pub AllOnce : List Str → Type 0
AllOnce [] = Unit
AllOnce (k ∷ ks) = (contains ks k ≡ false) × AllOnce ks

-- What every Go map is: no key has two entries.
abbrev pub IsMap {ℓ} : {V : Type ℓ} → Map V → Type 0
IsMap m = AllOnce (keys m)
