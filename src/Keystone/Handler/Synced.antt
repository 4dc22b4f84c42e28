-- ===== src/Keystone/Handler/Synced.antt =====
-- A login through the handler: the user of a token has all that the sync reads of it.
use cpo.Base.{
  ◌≡◌, ◌≢◌, refl, ap, inl, inr, Bool, true, false, not, Bool-cases, Option, some, List, [], ◌∷◌,
  ◌==◌, any, Str, str, if◌then◌else◌, nat_eq, list_eq,
}
use cpo.Exec.{Result, ok, err, Exec, continue, ◌>>=◌, pure, raise}
use cpo.Sets.{StringSet}
use cpo.Keystone.Authenticate.{Token, Identity, user_of, read_user_of, authenticate_token}
use cpo.Keystone.Handler.{Auth, authenticated, after_sync, handler, review_token, sync_user}
use cpo.Keystone.Policy.{UserInfo, roles_key}
use cpo.Keystone.Sync.Cluster.{KubeError, not_found, failed, RoleBinding, Cluster, is_named}
use cpo.Keystone.Sync.Config.{SyncConfig, projects, role_assignments}
use cpo.Keystone.Sync.Steps.{
  SyncError, internal, no_client, panicked, extra_values, is_stale, binding_name, black_listed,
  namespace_of, Sync, as_internal, or_internal, after_get, sync_project_data, delete_stale,
  create_missing, new_binding, sync_role_assignments_data, for_type, sync_types, sync_data,
}
use cpo.Keystone.Webhook.{Fields, field, object, text, done}

module _ (C : Cluster) where
  -- No index is out of range, whatever the cluster answers.
  Safe : {A : Type 0} → Sync C A → Type 0
  Safe {A} m = (s : C.State) → (m s).0 ≢ err panicked

  continue-Safe :
      {A B : Type 0} (r : Result SyncError A) (f : A → Sync C B) (s : C.State)
      → r ≢ err panicked
      → ((a : A) → Safe (f a))
      → (continue r f s).0 ≢ err panicked
  unfolding Safe
  continue-Safe (ok a) f s p k = k a s
  continue-Safe (err e) f s p k = λ h. p (let g : e ≡ panicked = cc in ap err g)

  bind-Safe :
      {A B : Type 0} (m : Sync C A) (f : A → Sync C B)
      → Safe m
      → ((a : A) → Safe (f a))
      → Safe (m >>= f)
  unfolding Safe
  bind-Safe m f p k s = continue-Safe (m s).0 f (m s).1 (p s) k

  pure-Safe : {A : Type 0} (a : A) → Safe (pure a)
  unfolding Safe
  pure-Safe a s h = cc

  as_internal-Safe :
      {A : Type 0} (r : Result KubeError A) (s : C.State) → (as_internal C (r, s)).0 ≢ err panicked
  as_internal-Safe (ok a) s h = cc
  as_internal-Safe (err e) s h = cc

  or_internal-Safe : {A : Type 0} (m : Exec KubeError C.State A) → Safe (or_internal C m)
  unfolding Safe
  or_internal-Safe m s = as_internal-Safe (m s).0 (m s).1

  if-Safe : {A : Type 0} (b : Bool) (m n : Sync C A) → Safe m → Safe n → Safe (if b then m else n)
  if-Safe true m n p q = p
  if-Safe false m n p q = q

  after_get-Safe : (ns : Str) (r : Result KubeError (Unit {0})) → Safe (after_get C ns r)
  unfolding after_get Safe
  after_get-Safe ns (ok _) s h = cc
  after_get-Safe ns (err not_found) s h = or_internal-Safe (C.create_namespace ns) s h
  after_get-Safe ns (err failed) s h = cc

  sync_project_data-Safe : (ns : Str) → Safe (sync_project_data C ns)
  unfolding sync_project_data Safe
  sync_project_data-Safe ns s = after_get-Safe ns (C.get_namespace ns s).0 (C.get_namespace ns s).1

  delete_stale-Safe :
      (u : UserInfo) (ns : Str) (items : List RoleBinding) → Safe (delete_stale C u ns items)
  unfolding delete_stale
  delete_stale-Safe u ns [] = pure-Safe tt
  delete_stale-Safe u ns (b ∷ items) =
      let rest = delete_stale-Safe u ns items in
      if-Safe (is_stale u b.name) _ _
        (bind-Safe (or_internal C (C.delete_role_binding ns b.name)) _ (or_internal-Safe _)
          λ _. rest)
        rest

  create_missing-Safe :
      (u : UserInfo) (ns : Str) (items : List RoleBinding) (roles : List Str)
      → Safe (create_missing C u ns items roles)
  unfolding create_missing
  create_missing-Safe u ns items [] = pure-Safe tt
  create_missing-Safe u ns items (role ∷ roles) =
      let rest = create_missing-Safe u ns items roles in
      if-Safe (any (is_named (binding_name u.uid role)) items) _ _ rest (
        bind-Safe (or_internal C (C.create_role_binding ns (new_binding u role))) _
          (or_internal-Safe _) λ _. rest)

  sync_role_assignments_data-Safe :
      (u : UserInfo) (ns : Str) → Safe (sync_role_assignments_data C u ns)
  unfolding sync_role_assignments_data
  sync_role_assignments_data-Safe u ns =
      bind-Safe (or_internal C (C.list_role_bindings ns)) _ (or_internal-Safe _) λ items.
        bind-Safe (delete_stale C u ns items) _ (delete_stale-Safe u ns items)
          λ _. create_missing-Safe u ns items (extra_values u roles_key)

  for_type-Safe :
      (t : Str) (step : Sync C (Unit {0})) (types : List Str)
      → Safe step
      → Safe (for_type C t step types)
  unfolding for_type
  for_type-Safe t step [] p = pure-Safe tt
  for_type-Safe t step (dt ∷ types) p =
      let rest = for_type-Safe t step types p in
      if-Safe (dt == t) _ _ (bind-Safe step _ p λ _. rest) rest

  sync_types-Safe : (sc : SyncConfig) (u : UserInfo) (ns : Str) → Safe (sync_types C sc u ns)
  unfolding sync_types
  sync_types-Safe sc u ns =
      bind-Safe (for_type C projects (sync_project_data C ns) sc.data_types_to_sync) _
        (for_type-Safe projects (sync_project_data C ns) sc.data_types_to_sync
          (sync_project_data-Safe ns))
        λ _.
          for_type-Safe role_assignments (sync_role_assignments_data C u ns) sc.data_types_to_sync
            (sync_role_assignments_data-Safe u ns)

  black_listed-Safe : (id : Str) (list : List Str) → black_listed (id ∷ []) list ≢ err panicked
  unfolding black_listed
  black_listed-Safe id [] h = cc
  black_listed-Safe id (p ∷ list) h = elim (Bool-cases (id == p)) [
    | inl e ↦ (let k : ◌≡◌ {A = Result SyncError Bool} (ok true) (err panicked) = rw e at h in cc)
    | inr e ↦ black_listed-Safe id list (rw e at h)
  ]

  sync_data-Safe :
      (client : Bool) (sc : SyncConfig) (t : Token) → Safe (sync_data C client sc (user_of t))
  unfolding sync_data namespace_of Safe
  sync_data-Safe client sc t =
      bind-Safe (λ s. (black_listed (t.project ∷ []) sc.project_black_list, s)) _
        (λ s. black_listed-Safe t.project sc.project_black_list)
        λ skip. if-Safe skip (pure tt) _ (pure-Safe tt) (
          if-Safe (not client) (raise no_client) _ (λ s h. cc)
            (bind-Safe (λ s. (namespace_of sc (user_of t), s)) (sync_types C sc (user_of t))
              (λ s h. cc) λ ns. sync_types-Safe sc (user_of t) ns))

abbrev pub token_review : Str → Fields
token_review token = field (str "apiVersion") (text (str "authentication.k8s.io/v1beta1")) (
    field (str "kind") (text (str "TokenReview"))
      (field (str "spec") (object (field (str "token") (text token) done)) done))

after_sync-authenticated :
    (user : UserInfo) (r : Result SyncError (Unit {0}))
    → r ≢ err panicked
    → after_sync user r ≡ some (authenticated user)
after_sync-authenticated user (ok _) h = refl
after_sync-authenticated user (err internal) h = refl
after_sync-authenticated user (err no_client) h = refl
after_sync-authenticated user (err panicked) h = absurd (h refl)

module _ (K : Identity) (S : StringSet) (unmarshal : Str → Option (List Str)) where
  -- The review of a token that Keystone knows, where a sync is configured: the handler answers with the user of
  -- the token and does not panic, and leaves the cluster as the sync for this user leaves it. This holds for every
  -- user, also for one whose project has an empty identifier.
  pub handler-syncs :
      (auth : Auth) (sc : SyncConfig) (token answer : Str) (t : Token) (s : K.cluster.State)
      → (K.request token s).0 ≡ some answer
      → K.decode answer ≡ some t
      → auth.sync_config ≡ some sc
      → handler K S unmarshal auth (some (token_review token)) s ≡ (
        some (authenticated (user_of t)),
        (sync_data K.cluster auth.client sc (user_of t) (K.request token s).1).1,
      )
  unfolding handler review_token authenticate_token Safe
  handler-syncs auth sc token answer t s h d c =
      let s' = (K.request token s).1 in
      rw h (
        rw (d, read_user_of)
          (rw (c, sync_user)
            (ap (λ x. (x, (sync_data K.cluster auth.client sc (user_of t) s').1))
              (after_sync-authenticated (user_of t) _
                (sync_data-Safe K.cluster auth.client sc t s')))))
