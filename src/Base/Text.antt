-- ===== src/Base/Text.antt =====
-- Go strings are byte sequences: `List ℕ`, one number for each byte. The literals of the program
-- are ASCII, where `str` gives their bytes.
use Prim.Native.Nat.{ℕ}
use Prim.Native.Char.{code}
use Prim.Native.String.{String}
use mathlib.Core.Path.{◌≡◌, refl, sym, ◌∙◌}
use mathlib.Core.Logic.{◌↔◌, ◌≢◌, inl, inr}
use mathlib.Core.Bool.{true, false}
use mathlib.Core.List.{List, [], ◌∷◌}
use cpo.Base.Tests.{Bool-cases}
use cpo.Base.Equality.{◌==◌, nat_eq, list_eq, list_beq_iff}

abbrev pub Str : Type 0
Str = List ℕ

abbrev pub str : String → Str
str String.[] = []
str (String.◌∷◌ c s) = code c ∷ str s

pub str_eq_iff : (a b : Str) → ((a == b) ≡ true) ↔ (a ≡ b)
str_eq_iff a b = list_beq_iff a b

pub str_eq_refl : (a : Str) → (a == a) ≡ true
str_eq_refl a = (str_eq_iff a a).1 refl

pub str_neq : (a b : Str) → (a == b) ≡ false → a ≢ b
str_neq a b f e = cc (sym f ∙ (str_eq_iff a b).1 e)

pub str_neq_false : (a b : Str) → a ≢ b → (a == b) ≡ false
str_neq_false a b n = elim (Bool-cases (a == b)) [
  | inl t ↦ elim (n ((str_eq_iff a b).0 t)) [ ]
  | inr f ↦ f
]
