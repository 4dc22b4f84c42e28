-- ===== src/OpenStack/Lbaas/Lookup/Networks.antt =====
-- The floating network that is chosen where none is configured.
use mathlib.Core.List.{append-nil, append_assoc}
use mathlib.Core.Option.{some-injective}
use cpo.Base.{
  ◌<◌, ◌≡◌, refl, sym, ap, ◌∙◌, inl, inr, Option, none, some, List, [], ◌∷◌, ◌++◌, Str, length, ltb,
  ltb→lt, Bool-cases, Option-cases, if◌then◌else◌,
}
use cpo.Exec.{Result}
use cpo.OpenStack.Api.{not_found}
use cpo.OpenStack.Lbaas.Api.{Fault, known, Pages, done, page, fail, Network, Balancer}
use cpo.OpenStack.Lbaas.Lookup.{
  gather, external_id, collect_external, first_id, pick_network, get_floating_network_id_for_lb,
}

-- The identifiers of all external networks of a listing; none where a page cannot be read.
abbrev then_append : List Str → Option (List Str) → Option (List Str)
then_append l none = none
then_append l (some r) = some (l ++ r)

abbrev pub external_ids : Pages Network → Option (List Str)
external_ids done = some []
external_ids (fail e) = none
external_ids (page l rest) = then_append (gather external_id l) (external_ids rest)

-- The first of them.
abbrev pub first_or_not_found : List Str → Result Fault Str
first_or_not_found ids = first_id (known not_found) ids

first-append : (e f : Fault) (l r : List Str) → 1 < length l → first_id e l ≡ first_id f (l ++ r)
first-append e f [] r h = elim h [ ]
first-append e f (x ∷ l) r h = refl

collect-first :
    (acc : List Str) (pages : Pages Network) (ids : List Str)
    → external_ids pages ≡ some ids
    → let (found, r) = collect_external acc pages in
      pick_network found r ≡ first_or_not_found (acc ++ ids)
unfolding collect_external pick_network
collect-first acc done ids h =
    ap first_or_not_found (sym (append-nil acc) ∙ ap (λ l. acc ++ l) (some-injective [] ids h))
collect-first acc (fail e) ids h = cc
collect-first acc (page l rest) ids h = elim (Option-cases (external_ids rest)) [
  | inl e ↦ (let k : none ≡ some ids = rw (e, external_ids) at h in cc)
  | inr (r, e) ↦
      let g = gather external_id l in
      let k : some (g ++ r) ≡ some ids = rw (e, external_ids) at h in
      let all : (acc ++ g) ++ r ≡ acc ++ ids =
        append_assoc acc g r ∙ ap (λ m. acc ++ m) (some-injective _ _ k) in
      elim (Bool-cases (ltb 1 (length (acc ++ g)))) [
        | inl t ↦
            rw (t, if◌then◌else◌)
              (first-append _ _ (acc ++ g) r (ltb→lt _ _ t) ∙ ap first_or_not_found all)
        | inr f ↦
            rw (f, if◌then◌else◌) (collect-first (acc ++ g) rest r e ∙ ap first_or_not_found all)
      ]
]

-- If all pages of the networks can be read, the network that is chosen is the first external one, also
-- where there are several and the reading stops early; without one the answer is `ErrNotFound`.
pub get_floating_network_id_for_lb-first :
    (B : Balancer) (s : B.cloud.State) (ids : List Str)
    → external_ids (B.list_networks s).0 ≡ some ids
    → (get_floating_network_id_for_lb B s).0 ≡ first_or_not_found ids
unfolding get_floating_network_id_for_lb
get_floating_network_id_for_lb-first B s ids h = collect-first [] (B.list_networks s).0 ids h
