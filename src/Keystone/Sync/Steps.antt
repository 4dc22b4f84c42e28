-- ===== src/Keystone/Sync/Steps.antt =====
-- `syncData` and its two steps, of sync.go.
use cpo.Base.{
  ◌==◌, Bool, true, false, not, ◌&&◌, none, some, List, [], ◌∷◌, ◌++◌, map, Str, str, if◌then◌else◌,
  take, any, contains, nat_eq, list_eq,
}
use cpo.Exec.{Result, ok, err, Exec, ◌>>=◌, ◌>>◌, pure, raise}
use cpo.Strings.{index}
use cpo.Keystone.Policy.{lookup, UserInfo, project_id, project_name, roles_key}
use cpo.Keystone.Sync.Config.{SyncConfig, projects, role_assignments, format_namespace_name}
use cpo.Keystone.Sync.Cluster.{KubeError, not_found, failed, RoleBinding, Cluster, is_named}

-- `panicked` is an index out of range: the user lacks one of the attributes.
pub data SyncError : Type 0 where
  internal no_client panicked : SyncError

abbrev pub domain_id : Str
domain_id = str "alpha.kubernetes.io/identity/user/domain/id"

-- `u.Extra[key]`
abbrev pub extra_values : UserInfo → Str → List Str
extra_values u key = elim (lookup u.extra key) [ none ↦ [] | some val ↦ val ]

-- `roleBindingName`
abbrev pub binding_name : Str → Str → Str
binding_name uid role = uid ++ b'_' ∷ role

-- The names of the role bindings that the user should have.
abbrev pub wanted : UserInfo → List Str
wanted u = map (binding_name u.uid) (extra_values u roles_key)

-- The tests of the first loop: the part before the first "_" is the user's id, and the name is
-- not one that is kept.
abbrev pub is_stale : UserInfo → Str → Bool
is_stale u name = elim (index name b'_') [
  | none ↦ false
  | some i ↦ take i name == u.uid && not (contains (wanted u) name)
]

abbrev pub new_binding : UserInfo → Str → RoleBinding
new_binding u role = record {
  name = binding_name u.uid role;
  subjects =
      (record { api_group = str "rbac.authorization.k8s.io"; kind = str "User"; name = u.name })
      ∷ [];
  role_ref = record {
    api_group = str "rbac.authorization.k8s.io";
    kind = str "ClusterRole";
    name = role;
  };
}

-- The loop over the black list reads `u.Extra[ProjectID][0]` in each round.
unfoldable pub black_listed : List Str → List Str → Result SyncError Bool
black_listed ids [] = ok false
black_listed [] (p ∷ list) = err panicked
black_listed (id ∷ ids) (p ∷ list) =
    let rest = black_listed (id ∷ ids) list in if id == p then ok true else rest

-- `u.Extra[key][0]`
abbrev pub first_value : UserInfo → Str → Result SyncError Str
first_value u key = elim (extra_values u key) [ [] ↦ err panicked | v ∷ _ ↦ ok v ]

unfoldable pub namespace_of : SyncConfig → UserInfo → Result SyncError Str
namespace_of sc u = elim (first_value u project_id) [
  | err e ↦ err e
  | ok id ↦ elim (first_value u project_name) [
    | err e ↦ err e
    | ok name ↦ elim (first_value u domain_id) [
      | err e ↦ err e
      | ok domain ↦ ok (format_namespace_name sc id name domain)
    ]
  ]
]

module _ (C : Cluster) where
  abbrev pub Sync : Type 0 → Type 0
  Sync A = Exec SyncError C.State A

  -- `return errors.New("Internal server error")` after a call with an error.
  abbrev pub as_internal :
      {A : Type 0} → Result KubeError A × C.State → Result SyncError A × C.State
  as_internal (ok a, s) = (ok a, s)
  as_internal (err _, s) = (err internal, s)

  abbrev pub or_internal : {A : Type 0} → Exec KubeError C.State A → Sync A
  or_internal m s = as_internal (m s)

  unfoldable pub after_get : Str → Result KubeError (Unit {0}) → Sync (Unit {0})
  after_get ns (ok _) = pure tt
  after_get ns (err not_found) = or_internal (C.create_namespace ns)
  after_get ns (err failed) = raise internal

  unfoldable pub sync_project_data : Str → Sync (Unit {0})
  unfolding after_get
  sync_project_data ns s = let (res, s') = C.get_namespace ns s in after_get ns res s'

  unfoldable pub delete_stale : UserInfo → Str → List RoleBinding → Sync (Unit {0})
  delete_stale u ns [] = pure tt
  delete_stale u ns (b ∷ items) =
      let rest = delete_stale u ns items in
      if is_stale u b.name then or_internal (C.delete_role_binding ns b.name) >> rest else rest

  unfoldable pub create_missing : UserInfo → Str → List RoleBinding → List Str → Sync (Unit {0})
  create_missing u ns items [] = pure tt
  create_missing u ns items (role ∷ roles) =
      let rest = create_missing u ns items roles in
      if any (is_named (binding_name u.uid role)) items
      then rest
      else or_internal (C.create_role_binding ns (new_binding u role)) >> rest

  unfoldable pub sync_role_assignments_data : UserInfo → Str → Sync (Unit {0})
  sync_role_assignments_data u ns = do
    items ← or_internal (C.list_role_bindings ns)
    delete_stale u ns items
    create_missing u ns items (extra_values u roles_key)

  -- A loop over the data types that runs the step for one of them.
  unfoldable pub for_type : Str → Sync (Unit {0}) → List Str → Sync (Unit {0})
  for_type t step [] = pure tt
  for_type t step (dt ∷ types) =
      let rest = for_type t step types in if dt == t then step >> rest else rest

  -- From the call of `formatNamespaceName` on.
  unfoldable pub sync_types : SyncConfig → UserInfo → Str → Sync (Unit {0})
  unfolding for_type
  sync_types sc u ns = do
    for_type projects (sync_project_data ns) sc.data_types_to_sync
    for_type role_assignments (sync_role_assignments_data u ns) sc.data_types_to_sync

  -- `client` tells that the k8s client is set.
  unfoldable pub sync_data : Bool → SyncConfig → UserInfo → Sync (Unit {0})
  sync_data client sc u = do
    skip ← λ s. (black_listed (extra_values u project_id) sc.project_black_list, s)
    if skip
        then pure tt
        else if not client
        then raise no_client
        else do ns ← λ s. (namespace_of sc u, s); sync_types sc u ns
