-- ===== src/IpNets/Scenarios.antt =====
-- Sets of a few networks: the theorems at concrete inputs, and tests.
use cpo.Base.{
  ◌≡◌, ◌↔◌, refl, true, not, ◌&&◌, ◌||◌, none, some, [], ◌∷◌, map, Str, str, contains, any, nat_eq,
  list_eq,
}
use cpo.Strings.{trim_space}
use cpo.Maps.{has_key, IsMap}
use cpo.IpNets.{
  Networks, IpNets, parse_specs, parse_ip_nets, insert, delete, difference, is_superset, equal,
}
use cpo.IpNets.Laws.{is_spec_of, parse_ip_nets-has, members-has, equal_iff}

-- Networks that are their own texts; the empty text is no network.
abbrev texts : Networks
texts = record {
  IpNet = Str;
  text = λ n. n;
  parse_cidr = λ s. elim s [ [] ↦ none | c ∷ r ↦ some (c ∷ r) ];
}

abbrev a : Str
a = str "10.0.0.0/8"

abbrev b : Str
b = str "fd00::/8"

abbrev both : IpNets texts
both = (a, a) ∷ (b, b) ∷ []

abbrev turned : IpNets texts
turned = (b, b) ∷ (a, a) ∷ []

parse_ip_nets-has_example :
    IsMap both × ((k : Str) → has_key both k ≡ any (is_spec_of texts k) (a ∷ b ∷ a ∷ []))
unfolding parse_ip_nets parse_specs trim_space
parse_ip_nets-has_example = parse_ip_nets-has texts (a ∷ b ∷ a ∷ []) both refl

members-has_example :
    (has_key (insert texts both (a ∷ [])) b
      ≡ (has_key both b || contains (map texts.text (a ∷ [])) b))
    × (has_key (delete texts both (a ∷ [])) b
        ≡ (has_key both b && not (contains (map texts.text (a ∷ [])) b)))
    × (has_key (difference texts both turned) b ≡ (has_key both b && not (has_key turned b)))
members-has_example = members-has texts both turned (a ∷ []) b

equal_iff_example :
    (equal texts both turned ≡ true) ↔ ((k : Str) → has_key both k ≡ has_key turned k)
equal_iff_example = equal_iff texts both turned (refl, (refl, tt)) (refl, (refl, tt))

compares : (equal texts both turned && not (equal texts both ((a, a) ∷ []))) ≡ true
unfolding equal is_superset
compares = refl
