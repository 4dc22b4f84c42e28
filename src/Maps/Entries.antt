-- ===== src/Maps/Entries.antt =====
-- The keys of a map after an operation.
use mathlib.Core.Path.{subst}
use cpo.Base.{
  ◌≡◌, refl, false, not, ◌&&◌, ◌||◌, some, [], ◌∷◌, ◌==◌, if◌then◌else◌, Str, arith, str_eq_iff,
  nat_eq, list_eq, Bool-cases, inl, inr,
}
use cpo.Maps.{Map, put, remove, get, has_key, IsMap}

module _ {ℓ} {V : Type ℓ} where
  pub has_key-put :
      (key : Str) (v : V) (m : Map V) (k : Str)
      → has_key (put key v m) k ≡ (key == k || has_key m k)
  has_key-put key v [] k = refl
  has_key-put key v ((j, w) ∷ m) k =
      ground (arith, has_key-put key v m k, str_eq_iff j key, str_eq_iff j k, str_eq_iff key k)

  pub has_key-remove :
      (key : Str) (m : Map V) (k : Str) → has_key (remove key m) k ≡ (not (key == k) && has_key m k)
  has_key-remove key [] k = ground arith
  has_key-remove key ((j, w) ∷ m) k =
      ground (arith, has_key-remove key m k, str_eq_iff j key, str_eq_iff j k, str_eq_iff key k)

  pub put-IsMap : (key : Str) (v : V) (m : Map V) → IsMap m → IsMap (put key v m)
  put-IsMap key v [] h = (refl, tt)
  put-IsMap key v ((j, w) ∷ m) h = elim (Bool-cases (j == key)) [
    | inl e ↦ rw (e, put) (subst (λ z. has_key m z ≡ false) ((str_eq_iff j key).0 e) h.0, h.1)
    | inr e ↦
        rw (e, put)
          (
            ground (arith, has_key-put key v m j, str_eq_iff j key, str_eq_iff key j),
            put-IsMap key v m h.1,
          )
  ]

  pub remove-IsMap : (key : Str) (m : Map V) → IsMap m → IsMap (remove key m)
  remove-IsMap key [] h = tt
  remove-IsMap key ((j, w) ∷ m) h = elim (Bool-cases (j == key)) [
    | inl e ↦ rw (e, remove) (remove-IsMap key m h.1)
    | inr e ↦ rw (e, remove) (ground (arith, has_key-remove key m j, h.0), remove-IsMap key m h.1)
  ]

  pub get-put :
      (key : Str) (v : V) (m : Map V) (k : Str)
      → get (put key v m) k ≡ (if key == k then some v else get m k)
  get-put key v [] k = refl
  get-put key v ((j, w) ∷ m) k =
      ground (arith, get-put key v m k, str_eq_iff j key, str_eq_iff j k, str_eq_iff key k)
