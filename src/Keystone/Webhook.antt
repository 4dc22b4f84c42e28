-- ===== src/Keystone/Webhook.antt =====
-- `authorizeToken` of pkg/identity/keystone/keystone.go: the answer to a SubjectAccessReview.
pub mod Reviews
pub mod Answers
use cpo.Base.{
  ◌==◌, Bool, true, false, Option, none, some, List, [], ◌∷◌, ◌++◌, if◌then◌else◌, Str, str, nat_eq,
  list_eq,
}
use cpo.Sets.{StringSet}
use cpo.Keystone.Policy.{Assoc, lookup, Policy, UserInfo, Attributes, Decision, allow, deny}
use cpo.Keystone.Authorize.{authorize}

infixl 10 ◌>>=◌
abbrev pub ◌>>=◌ : {A B : Type 0} → Option A → (A → Option B) → Option B
none >>= f = none
some a >>= f = f a

-- Decoded JSON. An object has its fields in the order in which a `range` visits them.
mutual
  pub data Json : Type 0 where
    null : Json
    text : Str → Json
    array : Items → Json
    object : Fields → Json

  pub data Items : Type 0 where
    end : Items
    item : Json → Items → Items

  pub data Fields : Type 0 where
    done : Fields
    field : Str → Json → Fields → Fields

-- `v, ok := data[name]`
abbrev pub find_field : Fields → Str → Option Json
find_field done name = none
find_field (field k v fs) name = let rest = find_field fs name in if k == name then some v else rest

-- `data[name].(T)`: `none` is a panic, also where the name is missing.
abbrev pub text_at : Fields → Str → Option Str
text_at fs name = elim (find_field fs name) [ some (text s) ↦ some s | _ ↦ none ]

abbrev pub array_at : Fields → Str → Option Items
array_at fs name = elim (find_field fs name) [ some (array l) ↦ some l | _ ↦ none ]

abbrev pub object_at : Fields → Str → Option Fields
object_at fs name = elim (find_field fs name) [ some (object o) ↦ some o | _ ↦ none ]

-- `getField`
unfoldable pub get_field : Fields → Str → Option Str
get_field fs name = elim (find_field fs name) [
  | none ↦ some []
  | some (text s) ↦ some s
  | some _ ↦ none
]

-- The loop over the groups.
unfoldable pub read_texts : Items → Option (List Str)
read_texts end = some []
read_texts (item (text s) l) = elim (read_texts l) [ none ↦ none | some ss ↦ some (s ∷ ss) ]
read_texts (item _ l) = none

-- `usr.Extra[key] = append(data, v)`, or a new entry with `v`.
abbrev pub add_extra : Str → Str → Assoc → Assoc
add_extra key v [] = (key, v ∷ []) ∷ []
add_extra key v ((k, vs) ∷ m) =
    let rest = add_extra key v m in if k == key then (k, vs ++ v ∷ []) ∷ m else (k, vs) ∷ rest

-- The inner loop over the values of one key.
unfoldable pub read_values : Str → Items → Assoc → Option Assoc
read_values key end extra = some extra
read_values key (item (text v) l) extra = read_values key l (add_extra key v extra)
read_values key (item _ l) extra = none

-- The loop over the extra attributes.
unfoldable pub read_extras : Fields → Assoc → Option Assoc
unfolding read_values
read_extras done extra = some extra
read_extras (field key (array l) fs) extra = elim (read_values key l extra) [
  | none ↦ none
  | some extra' ↦ read_extras fs extra'
]
read_extras (field key _ fs) extra = none

-- `extras, ok := spec["extra"].(map[string]interface{})`
unfoldable pub read_extra : Fields → Option Assoc
unfolding read_extras
read_extra spec = elim (object_at spec (str "extra")) [
  | none ↦ some []
  | some fs ↦ read_extras fs []
]

-- The user of the request, whose id is not read.
unfoldable pub read_user : Fields → Option UserInfo
unfolding read_texts read_extra
read_user spec = do
  username ← text_at spec (str "user")
  items ← array_at spec (str "group")
  groups ← read_texts items
  extra ← read_extra spec
  some (record { name = username; uid = []; groups = groups; extra = extra })

unfoldable pub read_resource : UserInfo → Fields → Option Attributes
unfolding get_field
read_resource user v = do
  verb ← get_field v (str "verb")
  namespace ← get_field v (str "namespace")
  group ← get_field v (str "group")
  version ← get_field v (str "version")
  resource ← get_field v (str "resource")
  name ← get_field v (str "name")
  some (record {
    user = user;
    verb = verb;
    namespace = namespace;
    api_group = group;
    resource = resource;
    path = [];
    resource_request = true;
  })

unfoldable pub read_non_resource : UserInfo → Fields → Option Attributes
unfolding get_field
read_non_resource user v = do
  verb ← get_field v (str "verb")
  path ← get_field v (str "path")
  some (record {
    user = user;
    verb = verb;
    namespace = [];
    api_group = [];
    resource = [];
    path = path;
    resource_request = false;
  })

-- What the request asks for: `some none` is "unable to find attributes".
unfoldable pub read_attributes : Fields → Option (Option Attributes)
unfolding read_user read_resource read_non_resource
read_attributes spec = do
  user ← read_user spec
  elim (find_field spec (str "resourceAttributes")) [
    | some (object v) ↦ (do a ← read_resource user v; some (some a))
    | some _ ↦ none
    | none ↦ elim (find_field spec (str "nonResourceAttributes")) [
      | some (object v) ↦ (do a ← read_non_resource user v; some (some a))
      | some _ ↦ none
      | none ↦ some none
    ]
  ]

pub data Reply : Type 0 where
  server_error : Reply
  allowed : Bool → Reply

-- The response for a decision; `none` is a panic of the authorizer.
abbrev pub reply_of : Option Decision → Option Reply
reply_of none = none
reply_of (some allow) = some (allowed true)
reply_of (some deny) = some (allowed false)

module _ (S : StringSet) (unmarshal : Str → Option (List Str)) where
  -- The decision: without policies a request is denied.
  unfoldable pub decide : List Policy → Attributes → Option Decision
  decide [] a = some deny
  decide (p ∷ pl) a = authorize S unmarshal (p ∷ pl) a

  unfoldable pub authorize_token : List Policy → Fields → Option Reply
  unfolding read_attributes decide
  authorize_token pl body = do
    spec ← object_at body (str "spec")
    attrs ← read_attributes spec
    elim attrs [ none ↦ some server_error | some a ↦ reply_of (decide pl a) ]
