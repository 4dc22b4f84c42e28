-- ===== src/Keystone/Authenticate.antt =====
-- pkg/identity/keystone/authenticator.go: who a token belongs to.
use cpo.Base.{Option, none, some, List, [], ◌∷◌, Str, str}
use cpo.Keystone.Policy.{UserInfo, project_id, project_name, roles_key}
use cpo.Keystone.Sync.Cluster.{Cluster}
use cpo.Keystone.Sync.Steps.{domain_id}

-- `keystoneResponse`, where a missing field is empty.
pub record Token : Type 0 where
  pub user_id : Str
  pub user_name : Str
  pub domain : Str
  pub domain_name : Str
  pub project : Str
  pub project_named : Str
  pub roles : List Str

-- The cluster, and Keystone: the body of its answer about a token, `none` for an error, and its decoding.
pub record Identity : Type 1 where
  pub cluster : Cluster
  pub request : Str → cluster.State → Option Str × cluster.State
  pub decode : Str → Option Token

abbrev pub domain_name_key : Str
domain_name_key = str "alpha.kubernetes.io/identity/user/domain/name"

abbrev pub user_of : Token → UserInfo
user_of t = record {
  name = t.user_name;
  uid = t.user_id;
  groups = t.project ∷ [];
  extra =
      (roles_key, t.roles)
      ∷ (project_id, t.project ∷ [])
      ∷ (project_name, t.project_named ∷ [])
      ∷ (domain_id, t.domain ∷ [])
      ∷ (domain_name_key, t.domain_name ∷ [])
      ∷ [];
}

module _ (K : Identity) where
  abbrev pub read_user_of : Option Str → Option UserInfo
  read_user_of none = none
  read_user_of (some body) = elim (K.decode body) [ none ↦ none | some t ↦ some (user_of t) ]

  -- `none` is "Failed to authenticate".
  unfoldable pub authenticate_token : Str → K.cluster.State → Option UserInfo × K.cluster.State
  authenticate_token token s = let (body, s') = K.request token s in (read_user_of body, s')
