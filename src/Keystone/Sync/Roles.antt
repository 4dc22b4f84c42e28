-- ===== src/Keystone/Sync/Roles.antt =====
-- What a sync of the role assignments leaves in the namespace.
use mathlib.Core.Path.{subst}
use cpo.Base.{
  ◌≡◌, refl, sym, ap, ◌∙◌, ◌==◌, Bool, true, false, not, ◌&&◌, List, [], ◌∷◌, Str, any, Option,
  contains, if◌then◌else◌, Bool-cases, none, inl, inr, str_eq_iff, nat_eq, list_eq,
}
use cpo.Exec.{Result, ok, err, Exec, ◌>>◌, continue, continue-runs}
use cpo.Keystone.Policy.{UserInfo, roles_key}
use cpo.Keystone.Sync.Cluster.{KubeError, RoleBinding, Cluster, Kubernetes, is_named}
use cpo.Keystone.Sync.Steps.{
  Sync, binding_name, wanted, is_stale, extra_values, new_binding, as_internal, or_internal,
  delete_stale, create_missing, sync_role_assignments_data,
}
use cpo.Keystone.Sync.Bindings.{
  is_some, created, deleted, deleted_or, find_binding-any, granted_or, is_own, is_stale-eq, kept_or,
  not_created, own_wanted, owned-is_own, passed_over, role_of, role_of-wanted, same_either,
  sync_cases, synced, without,
}

module _ (C : Cluster) where
  as_internal-ok :
      {A : Type 0} (r : Result KubeError A) (s : C.State) (a : A)
      → (as_internal C (r, s)).0 ≡ ok a
      → (r ≡ ok a) × ((as_internal C (r, s)).1 ≡ s)
  as_internal-ok (ok b) s a h = (cc, refl)
  as_internal-ok (err e) s a h = cc

  module _ {B : Type 0} (m : Exec KubeError C.State (Unit {0})) (rest : Sync C B) where
    -- A step that is followed by others, where all end well.
    pub or_internal-runs :
        (s : C.State) (b : B)
        → ((or_internal C m >> rest) s).0 ≡ ok b
        → ((m s).0 ≡ ok tt) × ((or_internal C m >> rest) s ≡ rest (m s).1)
    or_internal-runs s b h = by_result (m s).0 (m s).1 refl refl h
      where
        by_result :
            (r : Result KubeError (Unit {0})) (s' : C.State)
            → (m s).0 ≡ r
            → (m s).1 ≡ s'
            → (continue (as_internal C (r, s')).0 (λ _. rest) (as_internal C (r, s')).1).0 ≡ ok b
            → (r ≡ ok tt)
              × (continue (as_internal C (r, s')).0 (λ _. rest) (as_internal C (r, s')).1 ≡ rest s')
        by_result (ok tt) s' e e' k = (refl, refl)
        by_result (err _) s' e e' k = cc

module _ (C : Cluster) (bound : Str → Str → C.State → Option RoleBinding)
    (there : Str → C.State → Bool) (laws : Kubernetes C bound there) (u : UserInfo)
    (ns n : Str) where
  -- Equal names agree on every test.
  same_test : (test : Str → Bool) (m : Str) → (m == n) ≡ true → test m ≡ test n
  same_test test m e = ap test ((str_eq_iff m n).0 e)

  delete_stale-bound :
      (items : List RoleBinding) (s : C.State)
      → (delete_stale C u ns items s).0 ≡ ok tt
      → bound ns n (delete_stale C u ns items s).1
        ≡ (if is_stale u n && any (is_named n) items then none else bound ns n s)
  unfolding delete_stale
  delete_stale-bound [] s h = without (is_stale u n) (bound ns n s)
  delete_stale-bound (b ∷ items) s h = elim (Bool-cases (is_stale u b.name)) [
    | inl e ↦
        let m = C.delete_role_binding ns b.name in
        let k : ((or_internal C m >> delete_stale C u ns items) s).0 ≡ ok tt =
          rw (e, delete_stale) at h in
        let (t, r) = or_internal-runs C m (delete_stale C u ns items) s tt k in
        let ih = delete_stale-bound items (m s).1 (sym (ap (λ x. x.0) r) ∙ k) in
        rw e (
          rw r (
            ih
            ∙ ap (λ o. if is_stale u n && any (is_named n) items then none else o)
                (laws.delete_removes ns b.name s t n)
            ∙ deleted (is_stale u n) (b.name == n) (any (is_named n) items) (bound ns n s)
                (λ q. sym (same_test (is_stale u) b.name q) ∙ e)))
    | inr e ↦
        let k : (delete_stale C u ns items s).0 ≡ ok tt = rw (e, delete_stale) at h in
        rw e (
          delete_stale-bound items s k
          ∙ passed_over (is_stale u n) (b.name == n) (any (is_named n) items) (bound ns n s)
              (λ q. sym (same_test (is_stale u) b.name q) ∙ e))
  ]

  create_missing-bound :
      (items : List RoleBinding) (roles : List Str) (s : C.State)
      → (create_missing C u ns items roles s).0 ≡ ok tt
      → bound ns n (create_missing C u ns items roles s).1 ≡ (
          if any (is_named n) items
          then bound ns n s
          else granted_or u (role_of u.uid roles n) (bound ns n s))
  unfolding create_missing
  create_missing-bound items [] s h = same_either (any (is_named n) items) (bound ns n s)
  create_missing-bound items (role ∷ roles) s h =
      let name = binding_name u.uid role in
      let a : (name == n) ≡ true → any (is_named name) items ≡ any (is_named n) items =
        same_test (λ x. any (is_named x) items) name in
      elim (Bool-cases (any (is_named name) items)) [
        | inl e ↦
            let k : (create_missing C u ns items roles s).0 ≡ ok tt = rw (e, create_missing) at h in
            rw e (
              create_missing-bound items roles s k
              ∙ not_created u role (role_of u.uid roles n) (name == n) (any (is_named n) items)
                  (bound ns n s) (λ q. sym (a q) ∙ e))
        | inr e ↦
            let m = C.create_role_binding ns (new_binding u role) in
            let k : ((or_internal C m >> create_missing C u ns items roles) s).0 ≡ ok tt =
              rw (e, create_missing) at h in
            let (t, r) = or_internal-runs C m (create_missing C u ns items roles) s tt k in
            rw e (
              rw r (
                create_missing-bound items roles (m s).1 (sym (ap (λ x. x.0) r) ∙ k)
                ∙ ap
                    (λ o.
                      if any (is_named n) items then o else granted_or u (role_of u.uid roles n) o)
                    (laws.create_adds ns (new_binding u role) s t n)
                ∙ created u role (role_of u.uid roles n) (name == n) (any (is_named n) items)
                    (bound ns n s) (λ q. sym (a q) ∙ e)))
      ]

module _ (C : Cluster) (bound : Str → Str → C.State → Option RoleBinding)
    (there : Str → C.State → Bool) (laws : Kubernetes C bound there) (u : UserInfo) (ns : Str) where
  -- A sync of the role assignments that ends well, for a user whose id has no "_", leaves under each name that
  -- starts with the user's id and "_" the binding that was there or a new one that gives the user the role, if
  -- it is the name for a role of the user, and else none; under all other names it leaves what was there.
  pub sync_role_assignments_data-bound :
      (s : C.State)
      → contains u.uid b'_' ≡ false
      → (sync_role_assignments_data C u ns s).0 ≡ ok tt
      → (n : Str) → bound ns n (sync_role_assignments_data C u ns s).1 ≡ synced u n (bound ns n s)
  unfolding sync_role_assignments_data
  sync_role_assignments_data-bound s plain h n = by_listed (C.list_role_bindings ns s).0 refl h
    where
      roles : List Str
      roles = extra_values u roles_key

      rest : List RoleBinding → Sync C (Unit {0})
      rest items = delete_stale C u ns items >> create_missing C u ns items roles

      goal : C.State → Type 0
      goal after = bound ns n after ≡ synced u n (bound ns n s)

      stale : is_stale u n ≡ (is_own u.uid n && not (is_some (role_of u.uid roles n)))
      stale =
          is_stale-eq u n
          ∙ ap (λ o. o && not (contains (wanted u) n)) (owned-is_own u.uid n plain)
          ∙ ap (λ w. is_own u.uid n && not w) (role_of-wanted u.uid roles n)

      own : is_some (role_of u.uid roles n) ≡ true → is_own u.uid n ≡ true
      own w = own_wanted u.uid roles n (role_of-wanted u.uid roles n ∙ w)

      by_listed :
          (r : Result KubeError (List RoleBinding))
          → (C.list_role_bindings ns s).0 ≡ r
          → let (q, s1) = as_internal C (r, (C.list_role_bindings ns s).1) in
            (continue q rest s1).0 ≡ ok tt → goal (continue q rest s1).1
      by_listed (err _) e k = cc
      by_listed (ok items) e k =
          let s1 = (C.list_role_bindings ns s).1 in
          let (_, t, r) =
            continue-runs (delete_stale C u ns items s1).0 _ (delete_stale C u ns items s1).1 tt
              k in
          let made =
            create_missing-bound C bound there laws u ns n items roles _
              (sym (ap (λ x. x.0) r) ∙ k) in
          let left = delete_stale-bound C bound there laws u ns n items s1 t in
          let kept = laws.list_keeps ns s n in
          let found : any (is_named n) items ≡ is_some (bound ns n s) =
            find_binding-any n items ∙ ap is_some (sym (laws.list_reads ns s items e n)) in
          let role = role_of u.uid roles n in
          subst goal (sym (ap (λ x. x.1) r)) (
            made
            ∙ ap (kept_or u role (any (is_named n) items))
                (left ∙ ap (deleted_or (is_stale u n) (any (is_named n) items)) kept)
            ∙ ap (λ f. kept_or u role f (deleted_or (is_stale u n) f (bound ns n s))) found
            ∙ ap
                (λ d.
                  kept_or u role (is_some (bound ns n s))
                    (deleted_or d (is_some (bound ns n s)) (bound ns n s)))
                stale
            ∙ sync_cases u role (is_own u.uid n) (bound ns n s) own)
