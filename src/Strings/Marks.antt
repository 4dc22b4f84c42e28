-- ===== src/Strings/Marks.antt =====
-- `strings.Contains` and `strings.Replace` for a mark: a percent sign with a letter.
use cpo.Base.{
  ℕ, ◌≡◌, refl, Bool, true, false, ◌&&◌, ◌||◌, [], ◌∷◌, ◌++◌, ◌==◌, if◌then◌else◌, Str, str, nat_eq,
}

abbrev pub percent : ℕ
percent = b'%'

-- `strings.Contains(s, mark)`
abbrev pub contains_mark : ℕ → Str → Bool
contains_mark letter [] = false
contains_mark letter (x ∷ []) = false
contains_mark letter (x ∷ y ∷ s) = (x == percent && y == letter) || contains_mark letter (y ∷ s)

-- `strings.Replace(s, mark, new, -1)`; `pending` tells that a percent sign stands before `s`.
abbrev pub replace_from : ℕ → Str → Bool → Str → Str
replace_from letter new false [] = []
replace_from letter new true [] = percent ∷ []
replace_from letter new false (x ∷ s) =
    let rest = replace_from letter new (x == percent) s in if x == percent then rest else x ∷ rest
replace_from letter new true (x ∷ s) =
    let rest = replace_from letter new (x == percent) s in
    if x == letter then new ++ rest else if x == percent then percent ∷ rest else percent ∷ x ∷ rest

abbrev pub replace_mark : ℕ → Str → Str → Str
replace_mark letter new s = replace_from letter new false s

replace_mark_runs : replace_mark b'i' (str "42") (str "ns-%i-%n-%%i%") ≡ str "ns-42-%n-%42%"
replace_mark_runs = refl
