-- ===== src/OpenStack/Servers/Addresses.antt =====
-- The choice of `getAddressByName`: an internal address first, and one of the family asked for.
use cpo.Base.{
  ◌≡◌, refl, sym, ◌∙◌, ◌⊎◌, inl, inr, ◌==◌, Bool, true, false, ◌&&◌, ◌||◌, none, some, List, [],
  ◌∷◌, Str, arith, str_eq_iff, Bool-cases, Option-cases, nat_eq, list_eq,
}
use cpo.Exec.{ok-injective, continue, continue-eq-ok, ok, err, Exec, ◌>>=◌, lift}
use cpo.OpenStack.Api.{Error, no_address_found, Server, Cloud}
use cpo.OpenStack.Servers.{
  AddressType, internal_ip, external_ip, NodeAddress, NetworkingOpts, type_eq, family,
  node_addresses, first_address, pick_address, get_server_by_name, get_address_by_name,
}

-- The addresses that `getAddressByName` considers: of one type, and of the family.
abbrev pub has_address : (Str → Bool) → AddressType → Bool → List NodeAddress → Str → Bool
has_address v6 t need [] x = false
has_address v6 t need (a ∷ addrs) x =
    (a.address == x && (type_eq a.kind t && family (v6 a.address) need))
    || has_address v6 t need addrs x

module _ (C : Cloud) (t : AddressType) (need : Bool) where
  first_address-some :
      (addrs : List NodeAddress) (x : Str)
      → first_address C t need addrs ≡ some x
      → has_address C.is_ipv6 t need addrs x ≡ true
  unfolding first_address
  first_address-some [] x h = cc
  first_address-some (a ∷ addrs) x h =
      ground (arith, str_eq_iff a.address x, first_address-some addrs x)

  first_address-none :
      (addrs : List NodeAddress) (x : Str)
      → first_address C t need addrs ≡ none
      → has_address C.is_ipv6 t need addrs x ≡ false
  unfolding first_address
  first_address-none [] x h = refl
  first_address-none (a ∷ addrs) x h = ground (arith, first_address-none addrs x)

module _ (C : Cloud) (need : Bool) where
  abbrev pub IsPicked : List NodeAddress → Str → Type 0
  IsPicked addrs x =
      (has_address C.is_ipv6 internal_ip need addrs x ≡ true)
      ⊎ ((has_address C.is_ipv6 external_ip need addrs x ≡ true)
          × ((y : Str) → has_address C.is_ipv6 internal_ip need addrs y ≡ false))

  abbrev pub NonePicked : List NodeAddress → Type 0
  NonePicked addrs =
      (y : Str)
      → (has_address C.is_ipv6 internal_ip need addrs y ≡ false)
        × (has_address C.is_ipv6 external_ip need addrs y ≡ false)

  -- The choice among the addresses of a node: an internal address of the family that is needed, else
  -- an external one where no internal one is of the family, and an error where there is neither.
  pub pick_address-prefers :
      (addrs : List NodeAddress)
      → ((x : Str) × (pick_address C need addrs ≡ ok x) × IsPicked addrs x)
        ⊎ ((pick_address C need addrs ≡ err no_address_found) × NonePicked addrs)
  unfolding pick_address
  pick_address-prefers [] = inr (refl, λ y. (refl, refl))
  pick_address-prefers (a ∷ addrs) =
      elim (Option-cases (first_address C internal_ip need (a ∷ addrs))) [
        | inr (x, e) ↦ inl (
          x,
          rw (e, pick_address) refl,
          inl (first_address-some C internal_ip need (a ∷ addrs) x e),
        )
        | inl e ↦ elim (Option-cases (first_address C external_ip need (a ∷ addrs))) [
          | inr (x, f) ↦ inl (
            x,
            rw (e, pick_address) (rw (f, pick_address) refl),
            inr (
              first_address-some C external_ip need (a ∷ addrs) x f,
              λ y. first_address-none C internal_ip need (a ∷ addrs) y e,
            ),
          )
          | inl f ↦ inr (
            rw (e, pick_address) (rw (f, pick_address) refl),
            λ y. (
              first_address-none C internal_ip need (a ∷ addrs) y e,
              first_address-none C external_ip need (a ∷ addrs) y f,
            ),
          )
        ]
      ]

  has_address_family :
      (t : AddressType) (addrs : List NodeAddress) (x : Str)
      → has_address C.is_ipv6 t need addrs x ≡ true
      → C.is_ipv6 x ≡ need
  has_address_family t [] x h = cc
  has_address_family t (a ∷ addrs) x h =
      ground (arith, str_eq_iff a.address x, has_address_family t addrs x)

  pick_address-family :
      (addrs : List NodeAddress) (x : Str) → pick_address C need addrs ≡ ok x → C.is_ipv6 x ≡ need
  pick_address-family addrs x h = elim (pick_address-prefers addrs) [
    | inl (y, e, inl i) ↦
        rw (ok-injective x y (sym h ∙ e)) (has_address_family internal_ip addrs y i)
    | inl (y, e, inr (o, _)) ↦
        rw (ok-injective x y (sym h ∙ e)) (has_address_family external_ip addrs y o)
    | inr (e, _) ↦ cc
  ]

  found_addresses :
      (opts : NetworkingOpts) (name : Str) (s : C.State) (x : Str)
      → (get_address_by_name C name need opts s).0 ≡ ok x
      → ((need && opts.ipv6_support_disabled) ≡ false)
        × ((addrs : List NodeAddress) × (pick_address C need addrs ≡ ok x))
  unfolding get_address_by_name
  found_addresses opts name s x h = elim (Bool-cases (need && opts.ipv6_support_disabled)) [
    | inl off ↦ let f : err _ ≡ ok x = rw (off, get_address_by_name) at h in cc
    | inr on ↦
        let k : (continue (get_server_by_name C name s).0 after (get_server_by_name C name s).1).0
            ≡ ok x =
          rw (on, get_address_by_name) at h in
        let (srv, _, rest) = continue-eq-ok _ after _ x k in
        let (addrs, _, picked) = continue-eq-ok (node_addresses C srv opts) _ _ x rest in
        (on, (addrs, picked))
  ]
    where
      after : Server → Exec Error C.State Str
      after srv = do addrs ← lift (node_addresses C srv opts); lift (pick_address C need addrs)

  -- An address found for a node is of the family that was asked for, and is no IPv6 address where
  -- IPv6 support is disabled.
  pub get_address_by_name-family :
      (opts : NetworkingOpts) (name : Str) (s : C.State) (x : Str)
      → (get_address_by_name C name need opts s).0 ≡ ok x
      → (C.is_ipv6 x ≡ need) × ((C.is_ipv6 x && opts.ipv6_support_disabled) ≡ false)
  get_address_by_name-family opts name s x h =
      let (enabled, (addrs, picked)) = found_addresses opts name s x h in
      let e : C.is_ipv6 x ≡ need = pick_address-family addrs x picked in (e, rw e enabled)
