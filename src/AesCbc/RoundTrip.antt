-- ===== src/AesCbc/RoundTrip.antt =====
-- What `Decrypt` makes of what `Encrypt` returned, and of texts that are too short.
use mathlib.Core.Path.{subst}
use mathlib.Core.Option.{some-injective}
use cpo.Base.{
  ℕ, zero, suc, ◌+◌, ◌-◌, ◌%◌, ◌^◌, ◌≤◌, ◌≡◌, refl, sym, ap, ◌∙◌, ◌==◌, true, false, none, some, [],
  ◌∷◌, ◌++◌, ltb, Str, length, length-append, get_elem?, take, drop, replicate, arith, nat_eq,
  Bool-cases, Option-cases, inl, inr, nat_beq_iff,
}
use cpo.AesCbc.{
  Cipher, block_size, CbcLaws, padding_size, padded, plain, panicked, unpad, encrypt, decrypt,
}

take-append : (s t : Str) → take (length s) (s ++ t) ≡ s
take-append [] t = refl
take-append (x ∷ s) t = ap (λ l. x ∷ l) (take-append s t)

drop-append : (s t : Str) → drop (length s) (s ++ t) ≡ t
drop-append [] t = refl
drop-append (x ∷ s) t = drop-append s t

drop_all : (n : ℕ) (s : Str) → length s ≤ n → drop n s ≡ []
drop_all zero [] h = refl
drop_all zero (x ∷ s) h = absurd (omega arith)
drop_all (suc n) [] h = refl
drop_all (suc n) (x ∷ s) h = drop_all n s (omega arith)

length_zero : (s : Str) → length s ≡ 0 → s ≡ []
length_zero [] h = refl
length_zero (x ∷ s) h = absurd (omega arith)

length-replicate : (n v : ℕ) → length (replicate n v) ≡ n
length-replicate zero v = refl
length-replicate (suc n) v = ap suc (length-replicate n v)

get_elem?-replicate : (n v : ℕ) → get_elem? (replicate (suc n) v) n ≡ some v
get_elem?-replicate zero v = refl
get_elem?-replicate (suc n) v = get_elem?-replicate n v

get_elem?-append : (s t : Str) (i j : ℕ) → j ≡ length s + i → get_elem? (s ++ t) j ≡ get_elem? t i
get_elem?-append [] t i j h = let e : j ≡ i = omega arith in ap (get_elem? t) e
get_elem?-append (x ∷ s) t i zero h = absurd (omega arith)
get_elem?-append (x ∷ s) t i (suc j) h = get_elem?-append s t i j (omega arith)

padding_bounds :
    (n : ℕ) → (1 ≤ 16 - (n % 16)) × (16 - (n % 16) ≤ 16) × ((n + (16 - (n % 16))) % 16 ≡ 0)
padding_bounds n = (omega arith, omega arith, omega arith)

unpad_last : (values : Str) (q : ℕ) → unpad (values ++ replicate (suc q) (suc q)) ≡ plain values
unfolding unpad
unpad_last values q =
    let pad = replicate (suc q) (suc q) in
    let text = values ++ pad in
    let size : length text ≡ length values + suc q =
      omega (arith, length-append values pad, length-replicate (suc q) (suc q)) in
    let last : get_elem? text (length text - 1) ≡ some (suc q) =
      get_elem?-append values pad q (length text - 1) (omega arith)
      ∙ get_elem?-replicate q (suc q) in
    let enough : ltb (length text) (suc q) ≡ false = ground arith in
    let rest : length text - suc q ≡ length values = omega arith in
    rw (last, unpad) (rw enough (ap plain (ap (λ n. take n text) rest ∙ take-append values pad)))

-- The padding is taken off again.
unpad-padded : (values : Str) → unpad (padded values) ≡ plain values
unpad-padded values =
    let p = padding_size values in
    let bounds = padding_bounds (length values) in
    let q : p ≡ suc (p - 1) = omega arith in
    let byte : p % 2 ^ 8 ≡ suc (p - 1) = omega arith in
    subst (λ m. unpad (values ++ replicate m (p % 2 ^ 8)) ≡ plain values) (sym q)
      (subst (λ v. unpad (values ++ replicate (suc (p - 1)) v) ≡ plain values) (sym byte)
        (unpad_last values (p - 1)))

padded_blocks : (values : Str) → length (padded values) % block_size ≡ 0
padded_blocks values =
    let p = padding_size values in
    let bounds = padding_bounds (length values) in
    let size : length (padded values) ≡ length values + p =
      omega
        (arith, length-append values (replicate p (p % 2 ^ 8)), length-replicate p (p % 2 ^ 8)) in
    ap (λ n. n % 16) size ∙ bounds.2

module _ (A : Cipher) (laws : CbcLaws A) where
  -- What `Encrypt` returns for an initial vector of a whole block is decrypted to the data that were
  -- encrypted, under the same key.
  pub decrypt-encrypt :
      (iv values key c : Str)
      → length iv ≡ block_size
      → encrypt A (some iv) values key ≡ some c
      → decrypt A c key ≡ plain values
  unfolding encrypt decrypt
  decrypt-encrypt iv values key c size h = elim (Option-cases (A.new_cipher key)) [
    | inl e ↦ (let k : none ≡ some c = rw (e, encrypt) at h in cc)
    | inr (b, e) ↦
        let k : some (iv ++ A.cbc_encrypt b iv (padded values)) ≡ some c = rw (e, encrypt) at h in
        subst (λ c. decrypt A c key ≡ plain values) (some-injective _ c k) (opened b e)
  ]
    where
      opened :
          (b : A.Block)
          → A.new_cipher key ≡ some b
          → decrypt A (iv ++ A.cbc_encrypt b iv (padded values)) key ≡ plain values
      opened b e =
          let text = A.cbc_encrypt b iv (padded values) in
          let front : take block_size (iv ++ text) ≡ iv =
            subst (λ n. take n (iv ++ text) ≡ iv) size (take-append iv text) in
          let back : drop block_size (iv ++ text) ≡ text =
            subst (λ n. drop n (iv ++ text) ≡ text) size (drop-append iv text) in
          let long : ltb (length (iv ++ text)) block_size ≡ false =
            (let l = length-append iv text in ground arith) in
          let blocks : length text % block_size ≡ 0 =
            ap (λ n. n % 16) (laws.encrypt_length b iv (padded values)) ∙ padded_blocks values in
          let whole : (length text % block_size == 0) ≡ true =
            (nat_beq_iff (length text % block_size) 0).1 blocks in
          let undone = laws.decrypts b iv (padded values) size (padded_blocks values) in
          rw (e, decrypt)
            (rw long (rw back (rw whole (rw front (ap unpad undone ∙ unpad-padded values)))))

  -- A text of at most one block is not refused with an error: `Decrypt` panics on it.
  pub decrypt-panics :
      (values key : Str) (b : A.Block)
      → A.new_cipher key ≡ some b
      → length values ≤ block_size
      → decrypt A values key ≡ panicked
  unfolding decrypt
  decrypt-panics values key b e h = elim (Bool-cases (ltb (length values) block_size)) [
    | inl s ↦ rw (e, decrypt) (rw s refl)
    | inr s ↦
        let one : drop block_size values ≡ [] = drop_all block_size values h in
        let iv = take block_size values in
        let nil : A.cbc_decrypt b iv [] ≡ [] = length_zero _ (laws.decrypt_length b iv []) in
        rw (e, decrypt) (rw s (rw one (ap unpad nil)))
  ]
