-- ===== src/OpenStack/Lbaas/Members/Popped.antt =====
-- `popMember` where no two members have the same address and port.
use mathlib.Core.List.{Perm}
use cpo.Base.{
  ℕ, suc, ◌-◌, ◌≡◌, refl, ap, inl, inr, Bool, true, false, some, List, [], ◌∷◌, ◌++◌, arith, Str,
  length, length-append, get_elem?, set, take, any, ltb, if◌then◌else◌, Bool-cases, get_elem?-lt,
  nat_beq_iff, str_eq_iff, list_eq, nat_eq,
}
use cpo.OpenStack.Lbaas.Api.{Member}
use cpo.OpenStack.Lbaas.Members.{is_member, member_exists, pop_from, pop_member}
use cpo.OpenStack.Lbaas.Members.Pairs.{PairsOnce}
use cpo.OpenStack.Routes.Delete.{find_index, write_last, shorten}
use cpo.OpenStack.Routes.SwapOut.{delete_found-perm}

module _ {ℓ} {A : Type ℓ} where
  get_elem?-middle :
      (pre : List A) (m : A) (suf : List A) → get_elem? (pre ++ m ∷ suf) (length pre) ≡ some m
  get_elem?-middle [] m suf = refl
  get_elem?-middle (x ∷ pre) m suf = get_elem?-middle pre m suf

  set-middle :
      (pre : List A) (m x : A) (suf : List A) → set (pre ++ m ∷ suf) (length pre) x ≡ pre ++ x ∷ suf
  set-middle [] m x suf = refl
  set-middle (y ∷ pre) m x suf = ap (λ l. y ∷ l) (set-middle pre m x suf)

  append-shift : (pre : List A) (m : A) (suf : List A) → (pre ++ m ∷ []) ++ suf ≡ pre ++ m ∷ suf
  append-shift [] m suf = refl
  append-shift (x ∷ pre) m suf = ap (λ l. x ∷ l) (append-shift pre m suf)

  length-shift : (pre : List A) (m : A) → length (pre ++ m ∷ []) ≡ suc (length pre)
  length-shift pre m = omega (arith, length-append pre (m ∷ []))

  find_index-middle :
      (p : A → Bool) (pre : List A) (m : A) (suf : List A)
      → any p pre ≡ false
      → p m ≡ true
      → find_index p (pre ++ m ∷ suf) ≡ some (length pre)
  find_index-middle p [] m suf q h = rw (h, find_index) refl
  find_index-middle p (x ∷ pre) m suf q h =
      let f : p x ≡ false = ground arith in
      rw (f, find_index) (rw (find_index-middle p pre m suf (ground arith) h) refl)

  any-shift :
      (p : A → Bool) (pre : List A) (m : A)
      → any p pre ≡ false
      → p m ≡ false
      → any p (pre ++ m ∷ []) ≡ false
  any-shift p [] m q h = ground arith
  any-shift p (x ∷ pre) m q h = ground (arith, any-shift p pre m (ground arith) h)

module _ (addr : Str) (port : ℕ) where
  pop_from-quiet :
      (pre suf : List Member) (len : ℕ)
      → any (is_member addr port) suf ≡ false
      → pop_from addr port (pre ++ suf) len (length pre) (length suf) ≡ some (take len (pre ++ suf))
  unfolding pop_from
  pop_from-quiet pre [] len h = refl
  pop_from-quiet pre (m ∷ suf) len h =
      let f : is_member addr port m ≡ false = ground arith in
      let ih = pop_from-quiet (pre ++ m ∷ []) suf len (ground arith) in
      let k = rw (length-shift pre m) at (rw (append-shift pre m suf) at ih) in
      rw (get_elem?-middle pre m suf, pop_from) (rw (f, pop_from) k)

  pairs-quiet :
      (m : Member) (r : List Member)
      → member_exists r m.address m.protocol_port ≡ false
      → is_member addr port m ≡ true
      → any (is_member addr port) r ≡ false
  pairs-quiet m r h t =
      let e : m.address ≡ addr = (str_eq_iff m.address addr).0 (ground arith) in
      let n : m.protocol_port ≡ port = (nat_beq_iff m.protocol_port port).0 (ground arith) in
      rw n at (rw e at h)

  pop_from-found :
      (pre suf : List Member)
      → any (is_member addr port) pre ≡ false
      → any (is_member addr port) suf ≡ true
      → PairsOnce suf
      → (i : ℕ) × (find_index (is_member addr port) (pre ++ suf) ≡ some i)
        × (pop_from addr port (pre ++ suf) (length (pre ++ suf)) (length pre) (length suf)
            ≡ some (shorten (write_last (pre ++ suf) i)))
  unfolding pop_from
  pop_from-found pre [] q h once = cc
  pop_from-found pre (m ∷ r) q h once = elim (Bool-cases (is_member addr port m)) [
    | inl t ↦
        let l : List Member = pre ++ m ∷ r in
        let (x, e) = get_elem?-lt l (length l - 1) (omega (arith, length-append pre (m ∷ r))) in
        let w : write_last l (length pre) ≡ pre ++ x ∷ r =
          rw (e, write_last) (set-middle pre m x r) in
        let n : length (pre ++ x ∷ r) ≡ length l =
          omega (arith, length-append pre (m ∷ r), length-append pre (x ∷ r)) in
        let inside : ltb (length pre) (length l) ≡ true =
          ground (arith, length-append pre (m ∷ r)) in
        let a =
          pop_from-quiet (pre ++ x ∷ []) r (length l - 1) (pairs-quiet m r (ground arith) t) in
        let b = rw (length-shift pre x) at (rw (append-shift pre x r) at a) in
        (
          length pre,
          find_index-middle _ pre m r q t,
          rw (get_elem?-middle pre m r, pop_from)
              (rw (t, pop_from) (rw (inside, if◌then◌else◌) (rw w (rw n b)))),
        )
    | inr f ↦
        let (i, at, e) =
          pop_from-found (pre ++ m ∷ []) r (any-shift _ pre m q f) (ground arith) (ground arith) in
        let s = append-shift pre m r in
        let k = rw (length-shift pre m) at (rw s at e) in
        (i, rw s at at, rw (get_elem?-middle pre m r, pop_from) (rw (f, pop_from) k))
  ]

-- Where no two members have the same address and port, `popMember` does not panic, takes the member with the given
-- ones out, and keeps all others, in some order.
pub pop_member-perm :
    (members : List Member) (addr : Str) (port : ℕ)
    → PairsOnce members
    → member_exists members addr port ≡ true
    → (m : Member) × (is_member addr port m ≡ true)
      × (left : List Member) × (pop_member members addr port ≡ some left)
      × Perm (m ∷ left) members
unfolding pop_member
pop_member-perm members addr port once h =
    let (i, at, e) = pop_from-found addr port [] members refl h once in
    let (m, same, perm) = delete_found-perm (is_member addr port) members i at in
    (m, same, shorten (write_last members i), e, perm)
