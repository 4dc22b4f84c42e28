-- ===== src/Keystone/Policy.antt =====
-- pkg/identity/keystone/policy.go, and what authorizer.go reads of a request's attributes.
-- A nil pointer or a nil map is `none`. A map is an association list in the order in which a
-- `range` visits it.
use cpo.Base.{
  Option, none, some, List, [], ◌∷◌, Bool, Str, str, ◌==◌, if◌then◌else◌, list_eq, nat_eq,
}

abbrev pub Assoc : Type 0
Assoc = List (Str × List Str)

-- `val, ok := m[key]`
abbrev pub lookup : Assoc → Str → Option (List Str)
lookup [] k = none
lookup ((j, v) ∷ m) k = if j == k then some v else lookup m k

pub record PolicyMatch : Type 0 where
  pub kind : Str  -- the field `Type`
  pub values : List Str

pub record ResourcePolicySpec : Type 0 where
  pub verbs : List Str
  pub resources : List Str
  pub api_group : Option Str
  pub namespace : Option Str

pub record NonResourcePolicySpec : Type 0 where
  pub verbs : List Str
  pub non_resource_path : Option Str

pub record Policy : Type 0 where
  pub resource_spec : Option ResourcePolicySpec
  pub non_resource_spec : Option NonResourcePolicySpec
  pub matches : List PolicyMatch  -- the field `Match`
  pub resource_permissions_spec : Option Assoc
  pub non_resource_permissions_spec : Option Assoc
  pub users : Option Assoc

abbrev pub type_user : Str
type_user = str "user"

abbrev pub type_group : Str
type_group = str "group"

abbrev pub type_project : Str
type_project = str "project"

abbrev pub type_role : Str
type_role = str "role"

abbrev pub star : Str
star = str "*"

-- The keys of a user's extra attributes (keystone.go).
abbrev pub project_id : Str
project_id = str "alpha.kubernetes.io/identity/project/id"

abbrev pub project_name : Str
project_name = str "alpha.kubernetes.io/identity/project/name"

abbrev pub roles_key : Str
roles_key = str "alpha.kubernetes.io/identity/roles"

-- `user.Info` and `authorizer.Attributes`: the values that the getters return.
pub record UserInfo : Type 0 where
  pub name : Str
  pub uid : Str
  pub groups : List Str
  pub extra : Assoc

pub record Attributes : Type 0 where
  pub user : UserInfo
  pub verb : Str
  pub namespace : Str
  pub api_group : Str
  pub resource : Str
  pub path : Str
  pub resource_request : Bool

pub data Decision : Type 0 where
  deny allow : Decision
