-- ===== src/Validator/Fields.antt =====
-- identity.go, util.go and matchexpr.go: fields by index and by name, and their patterns. A Go map
-- from field indices is a list of pairs, in the order of the fields. `none` is a panic.
use cpo.Base.{
  ℕ, zero, suc, ◌==◌, Bool, Option, none, some, List, [], ◌∷◌, if◌then◌else◌, Str, take, drop,
  nat_eq,
}
use cpo.Strings.{index}
use cpo.Maps.{Map, put}

-- The tags of a field: `none` is a missing tag.
pub record Field : Type 0 where
  pub name_tag : Option Str
  pub value_tag : Option Str
  pub depends_tag : Option Str
  pub precludes_tag : Option Str
  pub matches_tag : Option Str

-- Of Go's package regexp: the patterns that compile, and `MatchString`.
pub record Regexps : Type 1 where
  pub Rx : Type 0
  pub compile : Str → Option Rx
  pub match_string : Rx → Str → Bool

abbrev pub ByIndex : Type 0 → Type 0
ByIndex V = List (ℕ × V)

-- `v, ok := m[i]`
abbrev pub at_index : {V : Type 0} → ByIndex V → ℕ → Option V
at_index [] i = none
at_index ((j, v) ∷ m) i = if j == i then some v else at_index m i

-- `idxNameMap[i]`, the empty text where the index is missing.
abbrev pub name_at : ByIndex Str → ℕ → Str
name_at names i = elim (at_index names i) [ none ↦ [] | some name ↦ name ]

-- `nameIndexMap` and `indexNameMap`
abbrev pub NameMaps : Type 0
NameMaps = Map ℕ × ByIndex Str

-- The loop from the field `i` on, with what the loop has put into `nameIdxMap`.
unfoldable pub build_name_idx_map : ℕ → Map ℕ → List Field → Option NameMaps
build_name_idx_map i by_name [] = some (by_name, [])
build_name_idx_map i by_name (ft ∷ fields) = elim ft.name_tag [
  | none ↦ none
  | some name ↦ elim (build_name_idx_map (suc i) (put name i by_name) fields) [
    | none ↦ none
    | some (names, idx) ↦ some (names, (i, name) ∷ idx)
  ]
]

-- `splitOne`, with `none` where `ok` is false.
unfoldable pub split_one : Str → ℕ → Option (Str × Str)
split_one value delim = elim (index value delim) [
  | none ↦ none
  | some zero ↦ none
  | some (suc i) ↦ some (take (suc i) value, drop (suc (suc i)) value)
]

module _ (R : Regexps) where
  unfoldable pub build_match_regex_map : ℕ → List Field → Option (ByIndex R.Rx)
  build_match_regex_map i [] = some []
  build_match_regex_map i (ft ∷ fields) =
      let rest = build_match_regex_map (suc i) fields in
      elim ft.matches_tag [
        | none ↦ rest
        | some pattern ↦ elim (R.compile pattern) [
          | none ↦ none
          | some rx ↦ elim rest [ none ↦ none | some m ↦ some ((i, rx) ∷ m) ]
        ]
      ]

  unfoldable pub value_satisfies_pattern : Str → R.Rx → Bool
  value_satisfies_pattern value rx = R.match_string rx value
