-- ===== src/OpenStack/Lbaas/Ensure/Plans.antt =====
-- Which services `EnsureLoadBalancer` makes a plan for.
use mathlib.Core.Path.{subst}
use cpo.Base.{
  ◌≡◌, ◌≢◌, refl, sym, ◌∙◌, ap, ◌⊎◌, inl, inr, Bool, true, false, not, ◌&&◌, [], ◌∷◌, ◌==◌, Str,
  str, nat_eq, list_eq, Bool-cases, str_eq_iff, arith, Option, none, some, ◌||◌, if◌then◌else◌,
}
use cpo.Exec.{Result, ok, err, Exec, ◌>>=◌, pure, lift, continue, ok-injective}
use cpo.Exec.Post.{Post, bind-Post, pure-Post}
use cpo.IpNets.{Networks, IpNets}
use cpo.OpenStack.Lbaas.Api.{Fault, failed, Balancer}
use cpo.OpenStack.Lbaas.Calls.{Call, seen}
use cpo.OpenStack.Lbaas.Lookup.{get_floating_network_id_for_lb}
use cpo.OpenStack.Lbaas.Plans.{
  Plan, are_tcp, persistence_of, refuse_if, pool_or_empty, choose_pool, plan_with, make_plan,
  no_floating_network, only_tcp, no_source_ranges,
}
use cpo.OpenStack.Lbaas.Listeners.{or_failed}
use cpo.OpenStack.Lbaas.Ranges.{is_allow_all, get_load_balancer_source_ranges}
use cpo.OpenStack.Lbaas.Services.{
  Service, LbOpts, get_bool_from_service_annotation, internal_load_balancer,
  get_string_from_service_annotation, floating_network_id,
}

refuse_if-ok : (b : Bool) (text : Str) (u : Unit {0}) → refuse_if b text ≡ ok u → b ≡ false
refuse_if-ok true text u h = cc
refuse_if-ok false text u h = refl

or_failed-ok :
    {A : Type 0} (text : Str) (o : Option A) (a : A) → or_failed text o ≡ ok a → o ≡ some a
or_failed-ok text none a h = cc
or_failed-ok text (some b) a h = ap some (ok-injective b a h)

-- The network that a search returns, where it fails none.
abbrev pub Searched : Result Fault Str → Str → Type 0
Searched (ok id) pool = id ≡ pool
Searched (err _) pool = [] ≡ pool

-- The floating network: that of the annotation, else that of the configuration, else the one that is searched.
abbrev pub Chosen : (B : Balancer) → B.cloud.State → Str → Str → Type 0
Chosen B s named pool =
    ((named ≢ []) × (named ≡ pool))
    ⊎ ((named ≡ []) × Searched (get_floating_network_id_for_lb B s).0 pool)

abbrev pub IsPool : (B : Balancer) → LbOpts → Service → B.cloud.State → Str → Type 0
IsPool B opts service s pool =
    Chosen B s
      (get_string_from_service_annotation service floating_network_id opts.floating_network_id) pool

-- The two affinities, and how a pool keeps them.
abbrev pub Known : Str → Option Str → Type 0
Known affinity persistence =
    ((affinity ≡ str "None") × (persistence ≡ none))
    ⊎ ((affinity ≡ str "ClientIP") × (persistence ≡ some (str "SOURCE_IP")))

persistence_of-Known :
    (affinity : Str) (p : Option Str) → persistence_of affinity ≡ ok p → Known affinity p
persistence_of-Known affinity p h = elim (Bool-cases (affinity == str "None")) [
  | inl e ↦
      let k : ◌≡◌ {A = Result Fault (Option Str)} (ok none) (ok p) = rw (e, if◌then◌else◌) at h in
      inl ((str_eq_iff _ _).0 e, sym (ok-injective none p k))
  | inr f ↦ elim (Bool-cases (affinity == str "ClientIP")) [
    | inl e ↦
        let k : ◌≡◌ {A = Result Fault (Option Str)} (ok (some (str "SOURCE_IP"))) (ok p) =
          rw (e, if◌then◌else◌) at (rw (f, if◌then◌else◌) at h) in
        inr ((str_eq_iff _ _).0 e, sym (ok-injective (some (str "SOURCE_IP")) p k))
    | inr g ↦
        let k : ◌≡◌ {A = Result Fault (Option Str)}
            (err (failed (str "unsupported load balancer affinity"))) (ok p) =
          rw (g, if◌then◌else◌) at (rw (f, if◌then◌else◌) at h) in
        cc
  ]
]

Known-persistence_of :
    (affinity : Str) (p : Option Str) → Known affinity p → persistence_of affinity ≡ ok p
Known-persistence_of affinity p (inl (e, q)) = ap persistence_of e ∙ ap ok (sym q)
Known-persistence_of affinity p (inr (e, q)) = ap persistence_of e ∙ ap ok (sym q)

-- What the code requires of a service: the annotation for internal load balancers is readable, one that is not
-- internal has a floating network, all ports are TCP, source ranges are restricted only where security groups
-- are managed, and the affinity is known.
abbrev pub Fits : Networks → LbOpts → Service → Plan → Type 0
Fits N opts service plan =
    (get_bool_from_service_annotation service internal_load_balancer opts.internal_lb
      ≡ some plan.internal)
    × ((not plan.internal && plan.floating_pool == []) ≡ false)
    × (are_tcp service.ports ≡ true)
    × ((ranges : IpNets N) × (get_load_balancer_source_ranges N service ≡ some ranges)
        × ((is_allow_all N ranges || opts.manage_security_groups) ≡ true))
    × Known service.session_affinity plan.persistence

abbrev pub Supported : (B : Balancer) → Networks → LbOpts → Service → B.cloud.State → Plan → Type 0
Supported B N opts service s plan =
    IsPool B opts service s plan.floating_pool × Fits N opts service plan

continue-ok :
    {S A C : Type 0} (r : Result Fault A) (a : A) (f : A → Exec Fault S C) (s : S)
    → r ≡ ok a
    → continue r f s ≡ f a s
continue-ok (ok b) a f s e = ap (λ x. f x s) (ok-injective b a e)
continue-ok (err e) a f s h = cc

lift-ok :
    {S A C : Type 0} (r : Result Fault A) (a : A) (f : A → Exec Fault S C) (s : S)
    → r ≡ ok a
    → (lift r >>= f) s ≡ f a s
lift-ok r a f s e = continue-ok r a f s e

module _ (B : Balancer) (N : Networks) (opts : LbOpts) (service : Service) where
  -- What the tests require once the floating network is chosen.
  abbrev Passed : Str → Plan → Type 0
  Passed pool plan = (pool ≡ plan.floating_pool) × Fits N opts service plan

  abbrev Planned : Str → B.cloud.State → Plan → B.cloud.State → Type 0
  Planned pool s plan s' = Passed pool plan × (s' ≡ s)

  plan_with-Post :
      (pool : Str) (s : B.cloud.State) → Post (plan_with B N opts service pool) s (Planned pool s)
  unfolding plan_with
  plan_with-Post pool s =
      bind-Post
        (lift (
          or_failed (str "unknown")
            (get_bool_from_service_annotation service internal_load_balancer opts.internal_lb)))
        _ s (Planned pool s)
        λ internal flagged.
          bind-Post (lift (refuse_if (not internal && pool == []) no_floating_network)) _ s
            (Planned pool s)
            λ u network.
              bind-Post (lift (refuse_if (not (are_tcp service.ports)) only_tcp)) _ s
                (Planned pool s)
                λ v tcp.
                  bind-Post
                    (lift (
                      or_failed (str "failed to get source ranges for loadbalancer service")
                        (get_load_balancer_source_ranges N service)))
                    _ s (Planned pool s)
                    λ ranges read.
                      bind-Post
                        (lift (
                          refuse_if (not (is_allow_all N ranges) && not opts.manage_security_groups)
                            no_source_ranges))
                        _ s (Planned pool s)
                        λ w allowed.
                          bind-Post (lift (persistence_of service.session_affinity)) _ s
                            (Planned pool s)
                            λ persistence affinity.
                              pure-Post
                                (record {
                                  floating_pool = pool;
                                  internal = internal;
                                  persistence = persistence;
                                })
                                s (Planned pool s)
                                (
                                  (
                                    refl,
                                    (
                                      or_failed-ok _ _ internal flagged,
                                      refuse_if-ok _ _ u network,
                                      ground (arith, refuse_if-ok _ _ v tcp),
                                      (
                                        ranges,
                                        or_failed-ok _ _ ranges read,
                                        ground (arith, refuse_if-ok _ _ w allowed),
                                      ),
                                      persistence_of-Known _ persistence affinity,
                                    ),
                                  ),
                                  refl,
                                )

  refuse_if-false : (b : Bool) (text : Str) → b ≡ false → refuse_if b text ≡ ok tt
  refuse_if-false b text e = rw (e, if◌then◌else◌) refl

  -- Conversely, a plan that passes the tests is made.
  Passed-plan_with :
      (pool : Str) (plan : Plan) (s : B.cloud.State)
      → Passed pool plan
      → plan_with B N opts service pool s ≡ (ok plan, s)
  unfolding plan_with
  Passed-plan_with pool plan s (named, (flagged, network, tcp, (ranges, read, allowed), affinity)) =
      lift-ok _ plan.internal _ s (ap (or_failed (str "unknown")) flagged)
      ∙ lift-ok _ tt _ s (
          refuse_if-false (not plan.internal && pool == []) no_floating_network
            (ap (λ p. not plan.internal && p == []) named ∙ network))
      ∙ lift-ok _ tt _ s
          (refuse_if-false (not (are_tcp service.ports)) only_tcp (ground (arith, tcp)))
      ∙ lift-ok _ ranges _ s
          (ap (or_failed (str "failed to get source ranges for loadbalancer service")) read)
      ∙ lift-ok _ tt _ s (
          refuse_if-false (not (is_allow_all N ranges) && not opts.manage_security_groups)
            no_source_ranges (ground (arith, allowed)))
      ∙ lift-ok _ plan.persistence _ s (Known-persistence_of _ plan.persistence affinity)
      ∙ ap (λ p. (ok (record plan { floating_pool = p }), s)) named

  unfoldable pub pool_of : Str → Call B Str
  pool_of pool =
      if pool == [] then seen pool_or_empty (get_floating_network_id_for_lb B) else pure pool

  searched : (r : Result Fault Str) → (pool : Str) × (pool_or_empty r ≡ ok pool) × Searched r pool
  searched (ok id) = (id, refl, refl)
  searched (err _) = ([], refl, refl)

  chosen :
      (named : Str) (s : B.cloud.State)
      → (pool : Str) × ((pool_of named s).0 ≡ ok pool) × Chosen B s named pool
  unfolding pool_of
  chosen [] s =
      let (pool, e, h) = searched (get_floating_network_id_for_lb B s).0 in (pool, e, inr (refl, h))
  chosen (c ∷ named) s = (c ∷ named, refl, inl ((λ e. cc), refl))

  choose_pool-IsPool :
      (s : B.cloud.State)
      → (pool : Str) × ((choose_pool B opts service s).0 ≡ ok pool) × IsPool B opts service s pool
  unfolding choose_pool pool_of
  choose_pool-IsPool s =
      chosen
        (get_string_from_service_annotation service floating_network_id opts.floating_network_id) s

  Searched-same : (r : Result Fault Str) (p q : Str) → Searched r p → Searched r q → p ≡ q
  Searched-same (ok id) p q e f = sym e ∙ f
  Searched-same (err _) p q e f = sym e ∙ f

  Chosen-same :
      (s : B.cloud.State) (named p q : Str) → Chosen B s named p → Chosen B s named q → p ≡ q
  Chosen-same s named p q (inl (_, e)) (inl (_, f)) = sym e ∙ f
  Chosen-same s named p q (inl (n, _)) (inr (e, _)) = elim (n e) [ ]
  Chosen-same s named p q (inr (e, _)) (inl (n, _)) = elim (n e) [ ]
  Chosen-same s named p q (inr (_, h)) (inr (_, k)) =
      Searched-same (get_floating_network_id_for_lb B s).0 p q h k

  -- A plan is made exactly for a service that is supported.
  pub make_plan-Supported :
      (s : B.cloud.State) (plan : Plan)
      → (make_plan B N opts service s).0 ≡ ok plan
      → Supported B N opts service s plan
        × (make_plan B N opts service s ≡ (ok plan, (choose_pool B opts service s).1))
  unfolding make_plan
  make_plan-Supported s plan h =
      let (pool, e, is_pool) = choose_pool-IsPool s in
      let run : make_plan B N opts service s
          ≡ plan_with B N opts service pool (choose_pool B opts service s).1 =
        continue-ok _ pool _ _ e in
      let passed = (plan_with-Post pool _ plan (sym (ap (λ x. x.0) run) ∙ h)).0 in
      (
        (subst (IsPool B opts service s) passed.0 is_pool, passed.1),
        run ∙ Passed-plan_with pool plan _ passed,
      )

  pub Supported-make_plan :
      (s : B.cloud.State) (plan : Plan)
      → Supported B N opts service s plan
      → (make_plan B N opts service s).0 ≡ ok plan
  unfolding make_plan
  Supported-make_plan s plan supported =
      let (pool, e, h) = choose_pool-IsPool s in
      let named = Chosen-same s _ pool plan.floating_pool h supported.0 in
      ap (λ x. x.0)
        (continue-ok _ pool (plan_with B N opts service) _ e
          ∙ Passed-plan_with pool plan _ (named, supported.1))
