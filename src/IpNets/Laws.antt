-- ===== src/IpNets/Laws.antt =====
-- The operations of ipnet.go as operations on the members.
use mathlib.Core.Path.{subst}
use mathlib.Core.Option.{some-injective}
use cpo.Base.{
  suc, ◌≤◌, ◌≡◌, ◌↔◌, refl, sym, ap, ◌∙◌, ◌==◌, Bool, true, false, not, ◌&&◌, ◌||◌, none, some,
  List, [], ◌∷◌, map, Str, length, contains, any, arith, nat_beq_iff, str_eq_iff, Bool-ext, nat_eq,
  list_eq, Bool-cases, Option-cases, inl, inr,
}
use cpo.Strings.{trim_space}
use cpo.Maps.{put, remove, keys, has_key, IsMap}
use cpo.Maps.Entries.{has_key-put, has_key-remove, put-IsMap, remove-IsMap}
use cpo.Maps.Counting.{length-AllOnce, contains-AllOnce}
use cpo.IpNets.{
  Networks, IpNets, parse_specs, parse_ip_nets, insert, delete, differences, difference,
  is_superset, len, equal,
}

module _ (N : Networks) where
  -- Whether a specification is of the network with this text.
  abbrev pub is_spec_of : Str → Str → Bool
  is_spec_of k spec = elim (N.parse_cidr (trim_space spec)) [
    | none ↦ false
    | some n ↦ N.text n == k
  ]

  agree : (j k : Str) (m : IpNets N) → (j == k) ≡ true → has_key m j ≡ has_key m k
  agree j k m e = ap (has_key m) ((str_eq_iff j k).0 e)

  parse_specs-has :
      (s : IpNets N) (specs : List Str) (r : IpNets N)
      → parse_specs N s specs ≡ some r
      → IsMap s
      → IsMap r × ((k : Str) → has_key r k ≡ (has_key s k || any (is_spec_of k) specs))
  unfolding parse_specs
  parse_specs-has s [] r h m =
      let e = some-injective s r h in
      (subst IsMap e m, λ k. subst (λ r. has_key r k ≡ (has_key s k || false)) e (ground arith))
  parse_specs-has s (spec ∷ specs) r h m = elim (Option-cases (N.parse_cidr (trim_space spec))) [
    | inl e ↦ (let k : none ≡ some r = rw (e, parse_specs) at h in cc)
    | inr (n, e) ↦
        let k : parse_specs N (put (N.text n) n s) specs ≡ some r = rw (e, parse_specs) at h in
        let (w, ih) = parse_specs-has (put (N.text n) n s) specs r k (put-IsMap (N.text n) n s m) in
        (w, λ j. ih j ∙ rw (e, is_spec_of) (ground (arith, has_key-put (N.text n) n s j)))
  ]

  -- The set that is parsed has exactly the networks of the specifications, one entry for each.
  pub parse_ip_nets-has :
      (specs : List Str) (r : IpNets N)
      → parse_ip_nets N specs ≡ some r
      → IsMap r × ((k : Str) → has_key r k ≡ any (is_spec_of k) specs)
  unfolding parse_ip_nets
  parse_ip_nets-has specs r h = parse_specs-has [] specs r h tt

  insert-has :
      (s : IpNets N) (items : List N.IpNet) (k : Str)
      → has_key (insert N s items) k ≡ (has_key s k || contains (map N.text items) k)
  unfolding insert
  insert-has s [] k = ground arith
  insert-has s (item ∷ items) k =
      ground
        (arith, insert-has (put (N.text item) item s) items k, has_key-put (N.text item) item s k)

  delete-has :
      (s : IpNets N) (items : List N.IpNet) (k : Str)
      → has_key (delete N s items) k ≡ (has_key s k && not (contains (map N.text items) k))
  unfolding delete
  delete-has s [] k = ground arith
  delete-has s (item ∷ items) k =
      ground (arith, delete-has (remove (N.text item) s) items k, has_key-remove (N.text item) s k)

  differences-has :
      (r s s2 : IpNets N) (k : Str)
      → has_key (differences N r s s2) k ≡ (has_key r k || (has_key s k && not (has_key s2 k)))
  unfolding differences
  differences-has r [] s2 k = ground arith
  differences-has r ((j, i) ∷ s) s2 k = elim (Bool-cases (has_key s2 j)) [
    | inl e ↦
        rw (e, differences) (differences-has r s s2 k ∙ (let a = agree j k s2 in ground arith))
    | inr e ↦
        rw (e, differences)
          (differences-has (put j i r) s s2 k
            ∙ (let a = agree j k s2 in ground (arith, has_key-put j i r k)))
  ]

  -- The members of a set after an insertion, after a deletion, and in a difference.
  pub members-has :
      (s s2 : IpNets N) (items : List N.IpNet) (k : Str)
      → (has_key (insert N s items) k ≡ (has_key s k || contains (map N.text items) k))
        × (has_key (delete N s items) k ≡ (has_key s k && not (contains (map N.text items) k)))
        × (has_key (difference N s s2) k ≡ (has_key s k && not (has_key s2 k)))
  unfolding difference
  members-has s s2 items k = (insert-has s items k, delete-has s items k, differences-has [] s s2 k)

  insert-IsMap : (s : IpNets N) (items : List N.IpNet) → IsMap s → IsMap (insert N s items)
  unfolding insert
  insert-IsMap s [] h = h
  insert-IsMap s (item ∷ items) h =
      insert-IsMap (put (N.text item) item s) items (put-IsMap (N.text item) item s h)

  delete-IsMap : (s : IpNets N) (items : List N.IpNet) → IsMap s → IsMap (delete N s items)
  unfolding delete
  delete-IsMap s [] h = h
  delete-IsMap s (item ∷ items) h =
      delete-IsMap (remove (N.text item) s) items (remove-IsMap (N.text item) s h)

  differences-IsMap : (r s s2 : IpNets N) → IsMap r → IsMap (differences N r s s2)
  unfolding differences
  differences-IsMap r [] s2 h = h
  differences-IsMap r ((j, i) ∷ s) s2 h = elim (Bool-cases (has_key s2 j)) [
    | inl e ↦ rw (e, differences) (differences-IsMap r s s2 h)
    | inr e ↦ rw (e, differences) (differences-IsMap (put j i r) s s2 (put-IsMap j i r h))
  ]

  -- No operation gives a network two entries.
  members-IsMap :
      (s s2 : IpNets N) (items : List N.IpNet)
      → IsMap s
      → IsMap (insert N s items) × IsMap (delete N s items) × IsMap (difference N s s2)
  unfolding difference
  members-IsMap s s2 items h =
      (insert-IsMap s items h, delete-IsMap s items h, differences-IsMap [] s s2 tt)

  is_superset-has :
      (s s2 : IpNets N)
      → is_superset N s s2 ≡ true
      → (k : Str) → has_key s2 k ≡ true
      → has_key s k ≡ true
  unfolding is_superset
  is_superset-has s [] h k m = cc
  is_superset-has s ((j, i) ∷ s2) h k m = elim (Bool-cases (j == k)) [
    | inl e ↦ sym (agree j k s e) ∙ ground arith
    | inr e ↦ is_superset-has s s2 (ground arith) k (ground arith)
  ]

  has-is_superset :
      (s s2 : IpNets N)
      → ((k : Str) → has_key s2 k ≡ true → has_key s k ≡ true)
      → is_superset N s s2 ≡ true
  unfolding is_superset
  has-is_superset s [] h = refl
  has-is_superset s ((j, i) ∷ s2) h =
      let here : has_key s j ≡ true = h j (ground (arith, str_eq_iff j j)) in
      let rest = has-is_superset s s2 (λ k m. h k (ground arith)) in ground arith

  length-keys : (s : IpNets N) → length (keys s) ≡ length s
  length-keys [] = refl
  length-keys (_ ∷ s) = ap suc (length-keys s)

  -- `Equal` compares the sizes and looks for the members of one set in the other: it holds exactly
  -- if both sets have the same members.
  pub equal_iff :
      (s s2 : IpNets N)
      → IsMap s
      → IsMap s2
      → (equal N s s2 ≡ true) ↔ ((k : Str) → has_key s k ≡ has_key s2 k)
  unfolding equal len
  equal_iff s s2 m m2 = (same, back)
    where
      same : equal N s s2 ≡ true → (k : Str) → has_key s k ≡ has_key s2 k
      same h k =
          let sup : is_superset N s s2 ≡ true = ground arith in
          let size : length s ≡ length s2 = (nat_beq_iff (length s) (length s2)).0 (ground arith) in
          let sub = is_superset-has s s2 sup in
          Bool-ext _ _
            (contains-AllOnce (keys s2) (keys s) m2 sub
              (length-keys s2 ∙ (sym size ∙ sym (length-keys s))) k)
            (sub k)

      back : ((k : Str) → has_key s k ≡ has_key s2 k) → equal N s s2 ≡ true
      back h =
          let sup = has-is_superset s s2 (λ k e. h k ∙ e) in
          let one : length (keys s) ≤ length (keys s2) =
            length-AllOnce (keys s) (keys s2) m (λ k e. sym (h k) ∙ e) in
          let two : length (keys s2) ≤ length (keys s) =
            length-AllOnce (keys s2) (keys s) m2 (λ k e. h k ∙ e) in
          let size : length s ≡ length s2 = omega (arith, length-keys s, length-keys s2) in
          let b = (nat_beq_iff (length s) (length s2)).1 size in ground arith
