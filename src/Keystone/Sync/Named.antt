-- ===== src/Keystone/Sync/Named.antt =====
-- The namespace of a project is named with the project's id, where the configuration is valid.
use mathlib.Core.Path.{subst}
use mathlib.Core.List
use cpo.Base.{
  ℕ, ◌≡◌, ◌≤◌, refl, sym, ap, ◌∙◌, ◌==◌, true, false, not, List, [], ◌∷◌, ◌++◌, Str, contains,
  length, leb, if◌then◌else◌, arith, Bool-cases, leb→le, inl, inr, ◌⊎◌, nat_eq, list_eq,
}
use cpo.Exec.{ok, err}
use cpo.Strings.Marks.{percent, contains_mark}
use cpo.Keystone.Sync.Config.{
  SyncConfig, sample, filled, name_matches, tail_matches, is_name_byte, validate, check_types,
  format_namespace_name,
}
use cpo.Keystone.Sync.Tokens.{
  Token, byte, the_id, the_name, the_domain, text, meaning, filled-text, sample-IsRead,
}

alphanumeric_plain : (x : ℕ) → is_name_byte x ≡ true → (x == percent) ≡ false
alphanumeric_plain x h = ground arith

tail_matches_plain : (s : Str) → tail_matches s ≡ true → contains s percent ≡ false
tail_matches_plain [] h = cc
tail_matches_plain (x ∷ []) h = let e = alphanumeric_plain x (ground arith) in ground arith
tail_matches_plain (x ∷ y ∷ s) h =
    let e : (x == percent) ≡ false = alphanumeric_plain x (ground arith) in
    let ih = tail_matches_plain (y ∷ s) (ground arith) in ground arith

name_matches_plain : (s : Str) → name_matches s ≡ true → contains s percent ≡ false
name_matches_plain [] h = cc
name_matches_plain (x ∷ s) h =
    let e : (x == percent) ≡ false = alphanumeric_plain x (ground arith) in
    let t = tail_matches_plain s (ground arith) in ground arith

contains_mark-plain :
    (c x : ℕ) (s : Str) → (x == percent) ≡ false → contains_mark c (x ∷ s) ≡ contains_mark c s
contains_mark-plain c x [] h = refl
contains_mark-plain c x (y ∷ s) h = rw (h, contains_mark) refl

validate-ok :
    (sc : SyncConfig)
    → validate sc ≡ ok tt
    → (contains_mark b'i' sc.namespace_format ≡ true)
      × (name_matches (sample sc.namespace_format) ≡ true)
unfolding validate
validate-ok sc h = elim (Bool-cases (contains_mark b'i' sc.namespace_format)) [
  | inr e ↦ (let k : err _ ≡ ok tt = rw (e, validate) at h in cc)
  | inl e ↦ elim (Bool-cases (name_matches (sample sc.namespace_format))) [
    | inl f ↦ (e, f)
    | inr f ↦
        let g : (if not (name_matches (sample sc.namespace_format))
              then err _
              else check_types sc.data_types_to_sync)
            ≡ ok tt =
          rw (e, validate) at h in
        let k : err _ ≡ ok tt = rw f at g in cc
  ]
]

module _ (id name domain : Str) where
  abbrev pub HasId : Str → Type 0
  HasId res = (pre : Str) × (post : Str) × (res ≡ pre ++ (id ++ post))

  behind : (front res : Str) → HasId res → HasId (front ++ res)
  behind front res (pre, post, e) =
      (front ++ pre, post, ap (λ l. front ++ l) e ∙ sym (List.append_assoc front pre (id ++ post)))

  meaning-HasId :
      (ts : List Token) → contains_mark b'i' (text ts) ≡ true → HasId (meaning id name domain ts)
  meaning-HasId [] h = cc
  meaning-HasId (byte x e ∷ ts) h =
      behind (x ∷ []) _ (meaning-HasId ts (sym (contains_mark-plain b'i' x (text ts) e) ∙ h))
  meaning-HasId (the_id ∷ ts) h = ([], meaning id name domain ts, refl)
  meaning-HasId (the_name ∷ ts) h =
      behind name _ (meaning-HasId ts (sym (contains_mark-plain b'i' b'n' (text ts) refl) ∙ h))
  meaning-HasId (the_domain ∷ ts) h =
      behind domain _ (meaning-HasId ts (sym (contains_mark-plain b'i' b'd' (text ts) refl) ∙ h))

  -- With a configuration that passes its check, and a project id and name without percent signs, the
  -- name of the namespace contains the project's id. It has at most 63 bytes or is the id.
  pub format_namespace_name-HasId :
      (sc : SyncConfig)
      → validate sc ≡ ok tt
      → contains id percent ≡ false
      → contains name percent ≡ false
      → let res = format_namespace_name sc id name domain in
        HasId res × ((length res ≤ 63) ⊎ (res ≡ id))
  unfolding format_namespace_name
  format_namespace_name-HasId sc v p q = elim (Bool-cases (leb (length res) 63)) [
    | inl e ↦ rw e (with_id, inl (leb→le (length res) 63 e))
    | inr e ↦ rw e (([], [], sym (List.append-nil id)), inr refl)
  ]
    where
      format : Str
      format = sc.namespace_format

      res : Str
      res = filled format id name domain

      with_id : HasId res
      with_id =
          let (m, n) = validate-ok sc v in
          let (ts, e) = sample-IsRead format (name_matches_plain (sample format) n) in
          subst HasId
            (sym (filled-text id name domain ts p q) ∙ ap (λ f. filled f id name domain) (sym e))
            (meaning-HasId ts (ap (contains_mark b'i') (sym e) ∙ m))
