-- ===== src/Keystone/Sync/Tokens.antt =====
-- A namespace format as plain bytes and marks: the reading that the check of `validate` secures.
use mathlib.Core.Path.{subst}
use cpo.Base.{
  ℕ, ◌≡◌, refl, sym, ap, ◌∙◌, ◌==◌, Bool, true, false, ◌||◌, List, [], ◌∷◌, ◌++◌, Str, str,
  contains, arith, Bool-cases, inl, inr, nat_eq, list_eq,
}
use cpo.Strings.Marks.{percent, replace_from, replace_mark}
use cpo.Keystone.Sync.Config.{sample, filled}

pub data Token : Type 0 where
  byte : (x : ℕ) → (x == percent) ≡ false → Token
  the_id the_name the_domain : Token

abbrev pub text : List Token → Str
text [] = []
text (byte x _ ∷ ts) = x ∷ text ts
text (the_id ∷ ts) = percent ∷ b'i' ∷ text ts
text (the_name ∷ ts) = percent ∷ b'n' ∷ text ts
text (the_domain ∷ ts) = percent ∷ b'd' ∷ text ts

module _ (id name domain : Str) where
  abbrev pub meaning : List Token → Str
  meaning [] = []
  meaning (byte x _ ∷ ts) = x ∷ meaning ts
  meaning (the_id ∷ ts) = id ++ meaning ts
  meaning (the_name ∷ ts) = name ++ meaning ts
  meaning (the_domain ∷ ts) = domain ++ meaning ts

replace_from-plain :
    (c : ℕ) (new : Str) (x : ℕ) (s : Str)
    → (x == percent) ≡ false
    → replace_from c new false (x ∷ s) ≡ x ∷ replace_from c new false s
replace_from-plain c new x s e = rw (e, replace_from) refl

-- A replacement passes over a text without percent signs.
replace_from-append :
    (c : ℕ) (new s t : Str)
    → contains s percent ≡ false
    → replace_from c new false (s ++ t) ≡ s ++ replace_from c new false t
replace_from-append c new [] t h = refl
replace_from-append c new (x ∷ s) t h =
    let ih = replace_from-append c new s t (ground arith) in
    let e : (x == percent) ≡ false = ground arith in rw (e, replace_from) (ap (λ l. x ∷ l) ih)

pub filled-text :
    (id name domain : Str) (ts : List Token)
    → contains id percent ≡ false
    → contains name percent ≡ false
    → filled (text ts) id name domain ≡ meaning id name domain ts
filled-text id name domain [] p q = refl
filled-text id name domain (byte x e ∷ ts) p q =
    let ih = filled-text id name domain ts p q in
    let R = replace_mark b'i' id (text ts) in
    ap (λ l. replace_mark b'd' domain (replace_mark b'n' name l))
      (replace_from-plain b'i' id x (text ts) e)
    ∙ (ap (λ l. replace_mark b'd' domain l) (replace_from-plain b'n' name x R e)
        ∙ (replace_from-plain b'd' domain x (replace_mark b'n' name R) e ∙ ap (λ l. x ∷ l) ih))
filled-text id name domain (the_id ∷ ts) p q =
    let ih = filled-text id name domain ts p q in
    let R = replace_mark b'i' id (text ts) in
    rw (replace_from-append b'n' name id R p)
      (replace_from-append b'd' domain id (replace_mark b'n' name R) p ∙ ap (λ l. id ++ l) ih)
filled-text id name domain (the_name ∷ ts) p q =
    let ih = filled-text id name domain ts p q in
    let R = replace_mark b'n' name (replace_mark b'i' id (text ts)) in
    replace_from-append b'd' domain name R q ∙ ap (λ l. name ++ l) ih
filled-text id name domain (the_domain ∷ ts) p q =
    ap (λ l. domain ++ l) (filled-text id name domain ts p q)

-- Starts with a percent sign or an "a".
abbrev starts : Str → Bool
starts [] = false
starts (x ∷ s) = x == percent || x == b'a'

replace_from-starts : (c : ℕ) (s : Str) → starts (replace_from c (str "aa") true s) ≡ true
replace_from-starts c [] = refl
replace_from-starts c (x ∷ s) = ground arith

replace_from-dirty :
    (c : ℕ) (s : Str)
    → (c == percent) ≡ false
    → (c == b'a') ≡ false
    → starts s ≡ true
    → contains (replace_from c (str "aa") true s) percent ≡ true
replace_from-dirty c [] p q h = cc
replace_from-dirty c (x ∷ s) p q h = ground (arith, nat_eq.same_iff x c)

-- Two percent signs in a row leave one in the sample.
sample_dirty : (s : Str) → contains (sample (percent ∷ percent ∷ s)) percent ≡ true
sample_dirty s = by_start (replace_from b'i' (str "aa") true s) (replace_from-starts b'i' s)
  where
    by_start :
        (X : Str)
        → starts X ≡ true
        → contains (replace_mark b'd' (str "aa") (replace_from b'n' (str "aa") true X)) percent
          ≡ true
    by_start [] h = cc
    by_start (x ∷ X) h = elim (Bool-cases (x == percent)) [
      | inl e ↦
          subst
            (λ z.
              contains (replace_mark b'd' (str "aa") (replace_from b'n' (str "aa") true (z ∷ X)))
                percent
              ≡ true)
            (sym ((nat_eq.same_iff x percent).0 e))
            (replace_from-dirty b'd' (replace_from b'n' (str "aa") true X) refl refl
              (replace_from-starts b'n' X))
      | inr e ↦
          let f : (x == b'a') ≡ true = ground arith in
          subst
            (λ z.
              contains (replace_mark b'd' (str "aa") (replace_from b'n' (str "aa") true (z ∷ X)))
                percent
              ≡ true)
            (sym ((nat_eq.same_iff x b'a').0 f)) refl
    ]

replace_from-odd :
    (c : ℕ) (new : Str) (y : ℕ) (s : Str)
    → (y == c) ≡ false
    → (y == percent) ≡ false
    → replace_from c new false (percent ∷ y ∷ s) ≡ percent ∷ y ∷ replace_from c new false s
replace_from-odd c new y s e f = rw (e, replace_from) (rw (f, replace_from) refl)

-- A percent sign before another byte than a letter of a mark stays in the sample.
sample_odd :
    (y : ℕ) (s : Str)
    → (y == b'i') ≡ false
    → (y == b'n') ≡ false
    → (y == b'd') ≡ false
    → (y == percent) ≡ false
    → contains (sample (percent ∷ y ∷ s)) percent ≡ true
sample_odd y s p q r e =
    let aa = str "aa" in
    let R = replace_mark b'i' aa s in
    ap (λ l. contains (replace_mark b'd' aa (replace_mark b'n' aa l)) percent)
      (replace_from-odd b'i' aa y s p e)
    ∙ (ap (λ l. contains (replace_mark b'd' aa l) percent) (replace_from-odd b'n' aa y R q e)
        ∙ ap (λ l. contains l percent) (replace_from-odd b'd' aa y (replace_mark b'n' aa R) r e))

sample-plain : (x : ℕ) (s : Str) → (x == percent) ≡ false → sample (x ∷ s) ≡ x ∷ sample s
sample-plain x s e =
    let aa = str "aa" in
    let R = replace_mark b'i' aa s in
    ap (λ l. replace_mark b'd' aa (replace_mark b'n' aa l)) (replace_from-plain b'i' aa x s e)
    ∙ (ap (λ l. replace_mark b'd' aa l) (replace_from-plain b'n' aa x R e)
        ∙ replace_from-plain b'd' aa x (replace_mark b'n' aa R) e)

abbrev pub IsRead : Str → Type 0
IsRead f = (ts : List Token) × (f ≡ text ts)

module _ (f : Str) (read : contains (sample f) percent ≡ false → IsRead f) where
  -- After a percent sign: the letter of a mark, or a contradiction.
  mark-IsRead :
      (y : ℕ) → contains (sample (percent ∷ y ∷ f)) percent ≡ false → IsRead (percent ∷ y ∷ f)
  mark-IsRead y h = elim (Bool-cases (y == b'i')) [
    | inl e ↦ as_letter b'i' the_id e (λ k. read k) (λ ts. refl)
    | inr p ↦ elim (Bool-cases (y == b'n')) [
      | inl e ↦ as_letter b'n' the_name e (λ k. read k) (λ ts. refl)
      | inr q ↦ elim (Bool-cases (y == b'd')) [
        | inl e ↦ as_letter b'd' the_domain e (λ k. read k) (λ ts. refl)
        | inr r ↦ elim (Bool-cases (y == percent)) [
          | inl e ↦
              let k : contains (sample (percent ∷ percent ∷ f)) percent ≡ false =
                subst (λ z. contains (sample (percent ∷ z ∷ f)) percent ≡ false)
                  ((nat_eq.same_iff y percent).0 e) h in
              let l = sample_dirty f in cc
          | inr e ↦ (let l = sample_odd y f p q r e in cc)
        ]
      ]
    ]
  ]
    where
      as_letter :
          (c : ℕ) (t : Token)
          → (y == c) ≡ true
          → (contains (sample (percent ∷ c ∷ f)) percent ≡ false → IsRead f)
          → ((ts : List Token) → text (t ∷ ts) ≡ percent ∷ c ∷ text ts)
          → IsRead (percent ∷ y ∷ f)
      as_letter c t e go shape =
          let z : y ≡ c = (nat_eq.same_iff y c).0 e in
          let (ts, g) = go (subst (λ z. contains (sample (percent ∷ z ∷ f)) percent ≡ false) z h) in
          (t ∷ ts, ap (λ z. percent ∷ z ∷ f) z ∙ (ap (λ l. percent ∷ c ∷ l) g ∙ sym (shape ts)))

pub sample-IsRead : (f : Str) → contains (sample f) percent ≡ false → IsRead f
sample-IsRead [] h = ([], refl)
sample-IsRead (x ∷ []) h = elim (Bool-cases (x == percent)) [
  | inl e ↦ ground arith
  | inr e ↦ (byte x e ∷ [], refl)
]
sample-IsRead (x ∷ y ∷ f) h = elim (Bool-cases (x == percent)) [
  | inl e ↦
      let z = (nat_eq.same_iff x percent).0 e in
      subst (λ w. IsRead (w ∷ y ∷ f)) (sym z)
        (mark-IsRead f (sample-IsRead f) y
          (subst (λ w. contains (sample (w ∷ y ∷ f)) percent ≡ false) z h))
  | inr e ↦
      let k : contains (x ∷ sample (y ∷ f)) percent ≡ false = rw (sample-plain x (y ∷ f) e) at h in
      let (ts, g) = sample-IsRead (y ∷ f) (ground arith) in (byte x e ∷ ts, ap (λ l. x ∷ l) g)
]
