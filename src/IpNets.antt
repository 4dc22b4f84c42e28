-- ===== src/IpNets.antt =====
-- pkg/util/net/sets/ipnet.go: sets of IP networks, as maps from the text of a network to it.
pub mod Laws
mod Scenarios
use cpo.Base.{
  ◌==◌, Bool, true, false, not, ◌&&◌, Option, none, some, List, [], ◌∷◌, if◌then◌else◌, Str, length,
  ℕ, nat_eq, list_eq, nat_beq,
}
use cpo.Exec.{Result, ok, err}
use cpo.Strings.{trim_space}
use cpo.Maps.{Map, put, remove, get, keys, has_key}

-- Of Go's package net: the networks, their texts, and `ParseCIDR` with `none` for its error.
pub record Networks : Type 1 where
  pub IpNet : Type 0
  pub text : IpNet → Str
  pub parse_cidr : Str → Option IpNet

module _ (N : Networks) where
  abbrev pub IpNets : Type 0
  IpNets = Map N.IpNet

  unfoldable pub parse_specs : IpNets → List Str → Option IpNets
  parse_specs ipnetset [] = some ipnetset
  parse_specs ipnetset (spec ∷ specs) = elim (N.parse_cidr (trim_space spec)) [
    | none ↦ none
    | some ipnet ↦ parse_specs (put (N.text ipnet) ipnet ipnetset) specs
  ]

  unfoldable pub parse_ip_nets : List Str → Option IpNets
  unfolding parse_specs
  parse_ip_nets specs = parse_specs [] specs

  unfoldable pub insert : IpNets → List N.IpNet → IpNets
  insert s [] = s
  insert s (item ∷ items) = insert (put (N.text item) item s) items

  unfoldable pub delete : IpNets → List N.IpNet → IpNets
  delete s [] = s
  delete s (item ∷ items) = delete (remove (N.text item) s) items

  unfoldable pub has : IpNets → N.IpNet → Bool
  has s item = has_key s (N.text item)

  unfoldable pub has_all : IpNets → List N.IpNet → Bool
  unfolding has
  has_all s [] = true
  has_all s (item ∷ items) = let rest = has_all s items in if not (has s item) then false else rest

  -- The loop over the entries of `s`, into `result`.
  unfoldable pub differences : IpNets → IpNets → IpNets → IpNets
  differences result [] s2 = result
  differences result ((k, i) ∷ s) s2 =
      differences (if has_key s2 k then result else put k i result) s s2

  unfoldable pub difference : IpNets → IpNets → IpNets
  unfolding differences
  difference s s2 = differences [] s s2

  unfoldable pub string_slice : IpNets → List Str
  string_slice s = keys s

  -- The loop over the entries of `s2`.
  unfoldable pub is_superset : IpNets → IpNets → Bool
  is_superset s [] = true
  is_superset s ((k, i) ∷ s2) =
      let rest = is_superset s s2 in if not (has_key s k) then false else rest

  unfoldable pub len : IpNets → ℕ
  len s = length s

  unfoldable pub equal : IpNets → IpNets → Bool
  unfolding len is_superset
  equal s s2 = nat_beq (len s) (len s2) && is_superset s s2
