-- ===== src/Keystone/Sync/Scenarios.antt =====
-- A cluster with one namespace to sync to: the theorems at concrete inputs, and tests.
use cpo.Base.{
  ◌≡◌, ◌≤◌, refl, ap, ◌==◌, sym, ◌∙◌, Option, none, some, Bool-cases, inl, inr, str_neq,
  str_neq_false, Bool, true, false, List, [], ◌∷◌, map, Str, str, contains, length, if◌then◌else◌,
  arith, ◌⊎◌, str_eq_iff, str_eq_refl, nat_eq, list_eq,
}
use cpo.Exec.{ok, err, ok-injective}
use cpo.Keystone.Policy.{UserInfo, roles_key, project_id, project_name}
use cpo.Keystone.Sync.Config.{
  SyncConfig, new_sync_config, validate, check_types, format_namespace_name,
}
use cpo.Keystone.Sync.Cluster.{not_found, RoleBinding, Cluster, Kubernetes, find_binding}
use cpo.Keystone.Sync.Steps.{
  domain_id, new_binding, namespace_of, black_listed, sync_role_assignments_data, sync_data,
  sync_types, for_type, sync_project_data, after_get, delete_stale, create_missing,
}
use cpo.Keystone.Sync.Bindings.{granted, synced}
use cpo.Keystone.Sync.Roles.{sync_role_assignments_data-bound}
use cpo.Keystone.Sync.Login.{sync_data-ok}
use cpo.Keystone.Sync.Named.{HasId, format_namespace_name-HasId}

record Small : Type 0 where
  spaces : List Str
  bindings : List RoleBinding

abbrev without : Str → List RoleBinding → List RoleBinding
without m [] = []
without m (b ∷ bs) = let rest = without m bs in if b.name == m then rest else b ∷ rest

gone :
    (m n : Str) (b : RoleBinding) (o : Option RoleBinding)
    → b.name ≡ m
    → (if m == n then none else o) ≡ (if m == n then none else if b.name == n then some b else o)
gone m n b o e = elim (Bool-cases (m == n)) [
  | inl t ↦ rw (t, if◌then◌else◌) refl
  | inr f ↦
      let g : (b.name == n) ≡ false = ap (λ x. x == n) e ∙ f in
      rw (f, if◌then◌else◌) (rw (g, if◌then◌else◌) refl)
]

find-without :
    (m n : Str) (bs : List RoleBinding)
    → find_binding n (without m bs) ≡ (if m == n then none else find_binding n bs)
find-without m n [] = elim (Bool-cases (m == n)) [
  | inl t ↦ rw (t, if◌then◌else◌) refl
  | inr f ↦ rw (f, if◌then◌else◌) refl
]
find-without m n (b ∷ bs) = elim (Bool-cases (b.name == m)) [
  | inl e ↦
      rw (e, without)
        (find-without m n bs ∙ gone m n b (find_binding n bs) ((str_eq_iff b.name m).0 e))
  | inr f ↦
      rw (f, without)
        (elim (Bool-cases (b.name == n)) [
          | inl e ↦
              let g : (m == n) ≡ false =
                str_neq_false m n (λ q. str_neq b.name m f ((str_eq_iff b.name n).0 e ∙ sym q)) in
              rw (e, find_binding) (rw (g, if◌then◌else◌) refl)
          | inr e ↦ rw (e, find_binding) (find-without m n bs)
        ])
]

abbrev small : Cluster
small = record {
  State = Small;
  get_namespace = λ ns s. (if contains s.spaces ns then ok tt else err not_found, s);
  create_namespace = λ ns s. (ok tt, record s { spaces = ns ∷ s.spaces });
  list_role_bindings = λ _ s. (ok s.bindings, s);
  delete_role_binding = λ _ m s. (ok tt, record s { bindings = without m s.bindings });
  create_role_binding = λ _ b s. (ok tt, record s { bindings = b ∷ s.bindings });
}

abbrev bound : Str → Str → Small → Option RoleBinding
bound ns n s = find_binding n s.bindings

abbrev there : Str → Small → Bool
there ns s = contains s.spaces ns

small-Kubernetes : Kubernetes small bound there
small-Kubernetes = record {
  list_reads = λ ns s items e n. ap (find_binding n) (ok-injective _ _ e);
  list_keeps = λ ns s n. refl;
  delete_removes = λ ns m s e n. find-without m n s.bindings;
  create_adds = λ ns b s e n. refl;
  get_keeps = λ ns s n. refl;
  make_keeps = λ ns s n. refl;
  get_finds = λ ns s e. ground arith;
  create_makes = λ ns s e. rw (str_eq_refl ns) refl;
  list_leaves = λ ns s. refl;
  delete_leaves = λ ns m s. refl;
  create_leaves = λ ns b s. refl;
}

abbrev bob : UserInfo
bob = record {
  name = str "bob";
  uid = str "u7";
  groups = [];
  extra =
      (roles_key, str "member" ∷ str "admin" ∷ [])
      ∷ (project_id, str "p1" ∷ [])
      ∷ (project_name, str "demo" ∷ [])
      ∷ (domain_id, str "default" ∷ [])
      ∷ [];
}

abbrev named : Str → RoleBinding
named n = record (new_binding bob []) { name = n }

-- A role that bob has, one that he no longer has, and a binding of an administrator.
abbrev before : Small
before = record {
  spaces = [];
  bindings = named (str "u7_admin") ∷ named (str "u7_reader") ∷ named (str "ops") ∷ [];
}

after_login :
    map (λ (b : RoleBinding). b.name) (sync_data small true new_sync_config bob before).1.bindings
    ≡ str "u7_member" ∷ str "u7_admin" ∷ str "ops" ∷ []
unfolding sync_data sync_types for_type sync_project_data after_get black_listed namespace_of
    format_namespace_name sync_role_assignments_data delete_stale create_missing
after_login = refl

-- The new binding refers to the role.
member_granted :
    bound [] (str "u7_member") (sync_role_assignments_data small bob [] before).1
    ≡ some (granted bob (str "member"))
unfolding sync_role_assignments_data delete_stale create_missing
member_granted = refl

sync_role_assignments_data-bound_example :
    bound [] (str "u7_member") (sync_role_assignments_data small bob [] before).1
    ≡ synced bob (str "u7_member") (bound [] (str "u7_member") before)
unfolding sync_role_assignments_data delete_stale create_missing
sync_role_assignments_data-bound_example =
    sync_role_assignments_data-bound small bound there small-Kubernetes bob [] before refl refl
      (str "u7_member")

sync_data-ok_example :
    (ns : Str) × (namespace_of new_sync_config bob ≡ ok ns)
    × (there ns (sync_data small true new_sync_config bob before).1 ≡ true)
    × ((n : Str)
        → bound ns n (sync_data small true new_sync_config bob before).1
          ≡ synced bob n (bound ns n before))
unfolding sync_data sync_types for_type sync_project_data after_get black_listed namespace_of
    format_namespace_name sync_role_assignments_data delete_stale create_missing
sync_data-ok_example =
    sync_data-ok small bound there small-Kubernetes bob refl new_sync_config before refl refl refl
      refl

abbrev dashed : SyncConfig
dashed = record new_sync_config { namespace_format = str "os-%n-%i" }

format_namespace_name-HasId_example :
    HasId (str "p1") (str "demo") (str "default") (str "os-demo-p1")
    × ((length (str "os-demo-p1") ≤ 63) ⊎ (str "os-demo-p1" ≡ str "p1"))
unfolding validate check_types format_namespace_name
format_namespace_name-HasId_example =
    format_namespace_name-HasId (str "p1") (str "demo") (str "default") dashed refl refl refl
