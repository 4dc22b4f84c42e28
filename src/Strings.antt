-- ===== src/Strings.antt =====
-- What the program uses of Go's package strings, over byte strings.
pub mod Bytes
pub mod Decimal
pub mod Marks
use cpo.Base.{
  ℕ, zero, suc, ◌+◌, ◌-◌, ◌≡◌, refl, Bool, true, false, ◌&&◌, ◌||◌, Option, none, some, List, [],
  ◌∷◌, ◌++◌, map, arith, leb, ◌==◌, if◌then◌else◌, Str, str, length, drop, nat_eq,
}
use mathlib.Core.Option
use mathlib.Core.List.{reverse}

-- `strings.Index(s, c)` for a one-byte text `c`; `none` is Go's -1.
abbrev pub index : Str → ℕ → Option ℕ
index [] c = none
index (x ∷ s) c = if x == c then some 0 else Option.map suc (index s c)

-- `strings.Index(s, c) == n`, for an `n` that is not negative.
abbrev pub index_is : Str → ℕ → ℕ → Bool
index_is s c n = elim (index s c) [ none ↦ false | some i ↦ i == n ]

-- `strings.Replace(s, old, new, -1)` for one-byte texts.
abbrev pub replace_byte : ℕ → ℕ → Str → Str
replace_byte old new [] = []
replace_byte old new (x ∷ s) = (if x == old then new else x) ∷ replace_byte old new s

-- `strings.Split(s, c)` for a one-byte separator: never empty.
abbrev pub cons_first : ℕ → List Str → List Str
cons_first x [] = (x ∷ []) ∷ []
cons_first x (p ∷ ps) = (x ∷ p) ∷ ps

abbrev pub split : Str → ℕ → List Str
split [] c = [] ∷ []
split (x ∷ s) c = let rest = split s c in if x == c then [] ∷ rest else cons_first x rest

-- The space characters of `unicode.IsSpace` in UTF-8: how many bytes of one stand at the front.
abbrev ascii_space : ℕ → Bool
ascii_space a = (leb 9 a && leb a 13) || a == 32

abbrev space2 : ℕ → ℕ → Bool
space2 a b = a == 0xC2 && (b == 0x85 || b == 0xA0)

abbrev space3 : ℕ → ℕ → ℕ → Bool
space3 a b c =
    (a == 0xE1 && (b == 0x9A && c == 0x80))
    || ((a == 0xE2
          && (b == 0x80 && ((leb 0x80 c && leb c 0x8A) || (c == 0xA8 || (c == 0xA9 || c == 0xAF)))))
        || ((a == 0xE2 && (b == 0x81 && c == 0x9F)) || (a == 0xE3 && (b == 0x80 && c == 0x80))))

abbrev pub space_length : Str → ℕ
space_length [] = 0
space_length (a ∷ []) = if ascii_space a then 1 else 0
space_length (a ∷ b ∷ []) = if ascii_space a then 1 else if space2 a b then 2 else 0
space_length (a ∷ b ∷ c ∷ s) =
    if ascii_space a then 1 else if space2 a b then 2 else if space3 a b c then 3 else 0

-- The same at the end of a text: its last bytes come first here.
abbrev pub space_length_back : Str → ℕ
space_length_back [] = 0
space_length_back (a ∷ []) = if ascii_space a then 1 else 0
space_length_back (a ∷ b ∷ []) = if ascii_space a then 1 else if space2 b a then 2 else 0
space_length_back (a ∷ b ∷ c ∷ s) =
    if ascii_space a then 1 else if space2 b a then 2 else if space3 c b a then 3 else 0

-- Drops the `skip` bytes of a space character, and then further ones.
trim : (Str → ℕ) → ℕ → Str → Str
trim front skip [] = []
trim front (suc k) (a ∷ s) = trim front k s
trim front zero (a ∷ s) = elim (front (a ∷ s)) [ zero ↦ a ∷ s | suc k ↦ trim front k s ]

-- `strings.TrimSpace(s)`
unfoldable pub trim_space : Str → Str
unfolding trim
trim_space s = reverse (trim space_length_back 0 (reverse (trim space_length 0 s)))

trim_space_runs : trim_space (str " \tkube-system ") ≡ str "kube-system"
unfolding trim_space
trim_space_runs = refl

split_runs : split (str "a/bc/") b'/' ≡ str "a" ∷ str "bc" ∷ [] ∷ []
split_runs = refl
