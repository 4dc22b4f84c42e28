-- ===== src/Keystone/Sync/Project.antt =====
-- What the two steps of a sync do to the namespace itself.
use cpo.Base.{
  ◌≡◌, refl, ◌∙◌, Bool, true, Option, List, [], ◌∷◌, Str, any, Bool-cases, inl, inr, nat_eq,
  list_eq,
}
use cpo.Exec.{Result, ok, err, Exec}
use cpo.Exec.Keeps.{Keeps, bind-Keeps}
use cpo.Keystone.Policy.{UserInfo, roles_key}
use cpo.Keystone.Sync.Cluster.{
  KubeError, not_found, failed, RoleBinding, Cluster, Kubernetes, is_named,
}
use cpo.Keystone.Sync.Steps.{
  extra_values, binding_name, is_stale, new_binding, as_internal, or_internal, after_get,
  sync_project_data, delete_stale, create_missing, sync_role_assignments_data,
}

module _ (C : Cluster) (bound : Str → Str → C.State → Option RoleBinding)
    (there : Str → C.State → Bool) (laws : Kubernetes C bound there) (ns : Str) where
  -- The namespace is there, and no role binding of it has changed.
  abbrev pub HasNamespace : C.State → C.State → Type 0
  HasNamespace s s' = (there ns s' ≡ true) × ((n : Str) → bound ns n s' ≡ bound ns n s)

  after_get-HasNamespace :
      (r : Result KubeError (Unit {0})) (s : C.State)
      → (C.get_namespace ns s).0 ≡ r
      → (after_get C ns r (C.get_namespace ns s).1).0 ≡ ok tt
      → HasNamespace s (after_get C ns r (C.get_namespace ns s).1).1
  unfolding after_get
  after_get-HasNamespace (ok tt) s e h = (laws.get_finds ns s e, λ n. laws.get_keeps ns s n)
  after_get-HasNamespace (err failed) s e h = cc
  after_get-HasNamespace (err not_found) s e h = by_created (C.create_namespace ns s1).0 refl h
    where
      s1 : C.State
      s1 = (C.get_namespace ns s).1

      by_created :
          (r : Result KubeError (Unit {0}))
          → (C.create_namespace ns s1).0 ≡ r
          → (as_internal C (r, (C.create_namespace ns s1).1)).0 ≡ ok tt
          → HasNamespace s (as_internal C (r, (C.create_namespace ns s1).1)).1
      by_created (ok tt) e k =
          (laws.create_makes ns s1 e, λ n. laws.make_keeps ns s1 n ∙ laws.get_keeps ns s n)
      by_created (err _) e k = cc

  pub sync_project_data-HasNamespace :
      (s : C.State)
      → (sync_project_data C ns s).0 ≡ ok tt
      → HasNamespace s (sync_project_data C ns s).1
  unfolding sync_project_data
  sync_project_data-HasNamespace s h = after_get-HasNamespace (C.get_namespace ns s).0 s refl h

  or_internal-Keeps :
      {A : Type 0} (m : Exec KubeError C.State A)
      → ((s : C.State) → there ns (m s).1 ≡ there ns s)
      → Keeps (there ns) (or_internal C m)
  or_internal-Keeps {A} m h = record { at = λ s. by_result (m s).0 (m s).1 ∙ h s }
    where
      by_result :
          (r : Result KubeError A) (s' : C.State) → there ns (as_internal C (r, s')).1 ≡ there ns s'
      by_result (ok _) s' = refl
      by_result (err _) s' = refl

  delete_stale-Keeps :
      (u : UserInfo) (items : List RoleBinding) → Keeps (there ns) (delete_stale C u ns items)
  unfolding delete_stale
  delete_stale-Keeps u [] = record { at = λ s. refl }
  delete_stale-Keeps u (b ∷ items) = elim (Bool-cases (is_stale u b.name)) [
    | inl e ↦
        rw (e, delete_stale)
          (bind-Keeps _ _ (or_internal-Keeps _ (laws.delete_leaves ns b.name))
            (λ _. delete_stale-Keeps u items))
    | inr e ↦ rw (e, delete_stale) (delete_stale-Keeps u items)
  ]

  create_missing-Keeps :
      (u : UserInfo) (items : List RoleBinding) (roles : List Str)
      → Keeps (there ns) (create_missing C u ns items roles)
  unfolding create_missing
  create_missing-Keeps u items [] = record { at = λ s. refl }
  create_missing-Keeps u items (role ∷ roles) =
      elim (Bool-cases (any (is_named (binding_name u.uid role)) items)) [
        | inl e ↦ rw (e, create_missing) (create_missing-Keeps u items roles)
        | inr e ↦
            rw (e, create_missing)
              (bind-Keeps _ _ (or_internal-Keeps _ (laws.create_leaves ns (new_binding u role)))
                (λ _. create_missing-Keeps u items roles))
      ]

  pub sync_role_assignments_data-Keeps :
      (u : UserInfo) → Keeps (there ns) (sync_role_assignments_data C u ns)
  unfolding sync_role_assignments_data
  sync_role_assignments_data-Keeps u =
      bind-Keeps _ _ (or_internal-Keeps _ (laws.list_leaves ns)) λ items.
        bind-Keeps _ _ (delete_stale-Keeps u items)
          λ _. create_missing-Keeps u items (extra_values u roles_key)
