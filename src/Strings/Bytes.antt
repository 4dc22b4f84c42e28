-- ===== src/Strings/Bytes.antt =====
-- Where a byte stands in a text that is put together from parts.
use cpo.Base.{ℕ, ◌≡◌, refl, false, none, some, [], ◌∷◌, ◌++◌, arith, nat_eq, Str, length, contains}
use cpo.Strings.{index, replace_byte}

pub index-append :
    (s t : Str) (c : ℕ) → contains s c ≡ false → index (s ++ c ∷ t) c ≡ some (length s)
index-append [] t c h = ground (arith, nat_eq.same_iff c c)
index-append (x ∷ s) t c h = ground (arith, index-append s t c)

pub index-none : (s : Str) (c : ℕ) → contains s c ≡ false → index s c ≡ none
index-none [] c h = refl
index-none (x ∷ s) c h = ground (arith, index-none s c)

pub replace_byte-append :
    (old new : ℕ) (s t : Str)
    → replace_byte old new (s ++ t) ≡ replace_byte old new s ++ replace_byte old new t
replace_byte-append old new [] t = refl
replace_byte-append old new (x ∷ s) t = rw (replace_byte-append old new s t)

pub replace_byte-none :
    (old new : ℕ) (s : Str) → contains s old ≡ false → replace_byte old new s ≡ s
replace_byte-none old new [] h = refl
replace_byte-none old new (x ∷ s) h = ground (arith, replace_byte-none old new s)
