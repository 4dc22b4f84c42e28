-- ===== src/OpenStack/Lbaas/Ranges.antt =====
-- pkg/api/v1/service/util.go: the source ranges of a service of type load balancer.
use cpo.Base.{◌==◌, Bool, Option, none, some, List, [], ◌∷◌, Str, str, any, nat_eq, list_eq}
use cpo.IpNets.{Networks, IpNets, parse_ip_nets, string_slice}
use cpo.Maps.{get}
use cpo.OpenStack.Lbaas.Services.{Service}
use cpo.Strings.{trim_space, split}

abbrev pub source_ranges_key : Str
source_ranges_key = str "service.beta.kubernetes.io/load-balancer-source-ranges"

-- `service.Annotations[key]`, empty where the key is missing.
abbrev pub value_or_empty : Option Str → Str
value_or_empty none = []
value_or_empty (some v) = v

abbrev pub or_default : Str → Str
or_default [] = str "0.0.0.0/0"
or_default (c ∷ s) = c ∷ s

-- The texts that are parsed.
unfoldable pub source_specs : Service → List Str
source_specs service = elim service.load_balancer_source_ranges [
  | s ∷ specs ↦ s ∷ specs
  | [] ↦
      split (or_default (trim_space (value_or_empty (get service.annotations source_ranges_key))))
        b','
]

module _ (N : Networks) where
  unfoldable pub is_allow_all : IpNets N → Bool
  is_allow_all ipnets = any (λ (s : Str). s == str "0.0.0.0/0") (string_slice N ipnets)

  -- `none` stands for an error.
  unfoldable pub get_load_balancer_source_ranges : Service → Option (IpNets N)
  get_load_balancer_source_ranges service = parse_ip_nets N (source_specs service)
