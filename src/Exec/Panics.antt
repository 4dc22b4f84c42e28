-- ===== src/Exec/Panics.antt =====
-- Computations that may panic, which is `none`.
use mathlib.Core.Option
use mathlib.Core.Path.{◌≡◌, subst}
use mathlib.Core.Option.{Option, none, some}
use mathlib.Core.Bool.{Bool, true, false}
use cpo.Base.{if◌then◌else◌}

-- What holds of a value that is there.
abbrev pub OnSome : {A : Type 0} → (A → Type 0) → Option A → Type 0
OnSome P none = Unit {0}
OnSome P (some a) = P a

pub some-OnSome :
    {A : Type 0} (P : A → Type 0) (o : Option A) (a : A) → o ≡ some a → OnSome P o → P a
some-OnSome P none a h p = cc
some-OnSome P (some b) a h p = (let e : b ≡ a = cc in subst P e p)

pub if-OnSome :
    {A : Type 0} (P : A → Type 0) (b : Bool) (o q : Option A)
    → OnSome P o
    → OnSome P q
    → OnSome P (if b then o else q)
if-OnSome P true o q x y = x
if-OnSome P false o q x y = y

pub map-OnSome :
    {A B : Type 0} (P : B → Type 0) (f : A → B) (o : Option A)
    → ((a : A) → P (f a))
    → OnSome P (Option.map f o)
map-OnSome P f none k = tt
map-OnSome P f (some a) k = k a
