-- ===== src/Keystone/Sync/Login.antt =====
-- A login with both data types enabled: the namespace is there, with the user's role bindings.
use mathlib.Core.Path.{subst}
use cpo.Base.{
  ◌≡◌, refl, sym, ap, ◌∙◌, Bool, true, false, Bool-cases, inl, inr, Option, none, some, Str,
  contains, if◌then◌else◌, nat_eq, list_eq,
}
use cpo.Exec.{Result, ok, err, continue, continue-runs}
use cpo.Keystone.Policy.{UserInfo, project_id, roles_key}
use cpo.Keystone.Sync.Config.{SyncConfig, projects, role_assignments}
use cpo.Keystone.Sync.Cluster.{RoleBinding, Cluster, Kubernetes}
use cpo.Keystone.Sync.Steps.{
  SyncError, extra_values, sync_project_data, sync_role_assignments_data, for_type, black_listed,
  namespace_of, sync_types, sync_data,
}
use cpo.Keystone.Sync.Bindings.{is_own, own_binding, synced, role_of}
use cpo.Keystone.Sync.Roles.{sync_role_assignments_data-bound}
use cpo.Keystone.Sync.Loop.{for_type-runs}
use cpo.Keystone.Sync.Project.{
  HasNamespace, sync_project_data-HasNamespace, sync_role_assignments_data-Keeps,
}

module _ (C : Cluster) (bound : Str → Str → C.State → Option RoleBinding)
    (there : Str → C.State → Bool) (laws : Kubernetes C bound there) (u : UserInfo)
    (plain : contains u.uid b'_' ≡ false) where
  -- The bindings that start with the user's id are those of the roles, the others are unchanged.
  abbrev HasRoles : Str → C.State → C.State → Type 0
  HasRoles ns s s' =
      (there ns s' ≡ there ns s) × ((n : Str) → bound ns n s' ≡ synced u n (bound ns n s))

  own_again :
      (role : Option Str) (o : Option RoleBinding)
      → own_binding u role (own_binding u role o) ≡ own_binding u role o
  own_again none o = refl
  own_again (some role) none = refl
  own_again (some role) (some b) = refl

  -- A second sync changes nothing.
  synced-again : (n : Str) (o : Option RoleBinding) → synced u n (synced u n o) ≡ synced u n o
  synced-again n o = elim (Bool-cases (is_own u.uid n)) [
    | inl e ↦ rw (e, if◌then◌else◌) (own_again (role_of u.uid (extra_values u roles_key) n) o)
    | inr e ↦ rw (e, if◌then◌else◌) refl
  ]

  sync_types-ok :
      (sc : SyncConfig) (ns : Str) (s : C.State)
      → contains sc.data_types_to_sync projects ≡ true
      → contains sc.data_types_to_sync role_assignments ≡ true
      → (sync_types C sc u ns s).0 ≡ ok tt
      → (there ns (sync_types C sc u ns s).1 ≡ true)
        × ((n : Str) → bound ns n (sync_types C sc u ns s).1 ≡ synced u n (bound ns n s))
  unfolding sync_types
  sync_types-ok sc ns s p r h =
      let one = for_type C projects (sync_project_data C ns) sc.data_types_to_sync in
      let two =
        for_type C role_assignments (sync_role_assignments_data C u ns) sc.data_types_to_sync in
      let (_, a, run) = continue-runs (one s).0 (λ _. two) (one s).1 tt h in
      let s1 = (one s).1 in
      let k : (two s1).0 ≡ ok tt = sym (ap (λ x. x.0) run) ∙ h in
      let first : HasNamespace C bound there laws ns s s1 =
        for_type-runs C projects (sync_project_data C ns) (HasNamespace C bound there laws ns)
          (λ x y z f g. (g.0, λ n. g.1 n ∙ f.1 n))
          (λ x e. sync_project_data-HasNamespace C bound there laws ns x e) sc.data_types_to_sync s
          p a in
      let second : HasRoles ns s1 (two s1).1 =
        for_type-runs C role_assignments (sync_role_assignments_data C u ns) (HasRoles ns)
          (λ x y z f g. (g.0 ∙ f.0, λ n. g.1 n ∙ ap (synced u n) (f.1 n) ∙ synced-again n _))
          (λ x e. (
            (sync_role_assignments_data-Keeps C bound there laws ns u).at x,
            sync_role_assignments_data-bound C bound there laws u ns x plain e,
          ))
          sc.data_types_to_sync s1 r k in
      subst (λ s'. (there ns s' ≡ true) × ((n : Str) → bound ns n s' ≡ synced u n (bound ns n s)))
        (sym (ap (λ x. x.1) run))
        (second.0 ∙ first.0, λ n. second.1 n ∙ ap (synced u n) (first.1 n))

  -- A login of a user whose project is not on the black list and whose id has no "_", with both
  -- data types enabled: if the sync ends well, the user's namespace is there; under each name
  -- that starts with the user's id and "_" it has the binding that was there or a new one that gives the user
  -- the role, if it is the name for a role of the user, and else none; all other bindings are as they were.
  pub sync_data-ok :
      (sc : SyncConfig) (s : C.State)
      → contains sc.data_types_to_sync projects ≡ true
      → contains sc.data_types_to_sync role_assignments ≡ true
      → black_listed (extra_values u project_id) sc.project_black_list ≡ ok false
      → (sync_data C true sc u s).0 ≡ ok tt
      → (ns : Str) × (namespace_of sc u ≡ ok ns)
        × (there ns (sync_data C true sc u s).1 ≡ true)
        × ((n : Str) → bound ns n (sync_data C true sc u s).1 ≡ synced u n (bound ns n s))
  unfolding sync_data
  sync_data-ok sc s p r listed h =
      rw (listed, sync_data) (by_namespace (namespace_of sc u) refl (rw (listed, sync_data) at h))
    where
      by_namespace :
          (q : Result SyncError Str)
          → namespace_of sc u ≡ q
          → (continue q (sync_types C sc u) s).0 ≡ ok tt
          → (ns : Str) × (namespace_of sc u ≡ ok ns)
            × (there ns (continue q (sync_types C sc u) s).1 ≡ true)
            × ((n : Str)
                → bound ns n (continue q (sync_types C sc u) s).1 ≡ synced u n (bound ns n s))
      by_namespace (err _) e k = cc
      by_namespace (ok ns) e k =
          let (found, bindings) = sync_types-ok sc ns s p r k in (ns, e, found, bindings)
