-- ===== src/Strings/Decimal.antt =====
-- Numbers in decimal: `%d` of package fmt, and `strconv.Atoi`.
use cpo.Base.{
  ℕ, zero, suc, ◌+◌, ◌-◌, ◌*◌, ◌/◌, ◌%◌, ◌^◌, ◌≡◌, refl, Bool, false, ◌&&◌, Option, none, some, [],
  ◌∷◌, ◌++◌, leb, ltb, ◌==◌, if◌then◌else◌, Str, str, nat_eq,
}

pub data ℤ : Type 0 where
  pos negsuc : ℕ → ℤ

-- `%d` of a number that is not negative; a number has at most as many digits as its value plus one.
abbrev digits : ℕ → ℕ → Str
digits zero n = []
digits (suc fuel) n =
    let rest = digits fuel (n / 10) in (if ltb n 10 then [] else rest) ++ (b'0' + n % 10) ∷ []

abbrev pub decimal : ℕ → Str
decimal n = digits (suc n) n

-- The value of a text that has digits only.
abbrev read_digits : ℕ → Str → Option ℕ
read_digits n [] = some n
read_digits n (c ∷ s) =
    let rest = read_digits (n * 10 + (c - b'0')) s in
    if leb b'0' c && leb c b'9' then rest else none

abbrev digits_of : Str → Option ℕ
digits_of [] = none
digits_of (c ∷ s) = read_digits 0 (c ∷ s)

abbrev positive : ℕ → Option ℤ
positive n = if ltb n (2 ^ 63) then some (ℤ.pos n) else none

abbrev negative : ℕ → Option ℤ
negative zero = some (ℤ.pos 0)
negative (suc n) = if ltb n (2 ^ 63) then some (ℤ.negsuc n) else none

abbrev or_error : Option ℕ → (ℕ → Option ℤ) → Option ℤ
or_error none f = none
or_error (some n) f = f n

-- `strconv.Atoi(s)` for the 64-bit `int`; `none` for an error.
unfoldable pub atoi : Str → Option ℤ
atoi [] = none
atoi (c ∷ s) =
    if c == b'-'
    then or_error (digits_of s) negative
    else if c == b'+'
    then or_error (digits_of s) positive
    else or_error (digits_of (c ∷ s)) positive

abbrev pub ℤ_beq : ℤ → ℤ → Bool
ℤ_beq (ℤ.pos a) (ℤ.pos b) = a == b
ℤ_beq (ℤ.negsuc a) (ℤ.negsuc b) = a == b
ℤ_beq _ _ = false

decimal_runs : decimal 1094 ≡ str "1094"
decimal_runs = refl

atoi_runs : atoi (str "-1") ≡ some (ℤ.negsuc 0)
unfolding atoi
atoi_runs = refl

atoi_rejects : atoi (str "9223372036854775808") ≡ none
unfolding atoi
atoi_rejects = refl
