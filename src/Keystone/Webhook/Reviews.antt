-- ===== src/Keystone/Webhook/Reviews.antt =====
-- The review that stands for a request is read as this request, but for the user's id.
use mathlib.Core.List
use cpo.Base.{
  ◌≡◌, ◌≢◌, refl, sym, ap, ◌∙◌, ◌==◌, Bool, true, false, ◌||◌, some, List, [], ◌∷◌, ◌++◌, Str, str,
  arith, str_eq_iff, str_eq_refl, nat_eq, list_eq,
}
use cpo.Keystone.Policy.{Assoc, Attributes}
use cpo.Keystone.Webhook.{
  text, array, object, Items, end, item, Fields, done, field, get_field, read_texts, add_extra,
  read_values, read_extras, read_extra, read_user, read_resource, read_non_resource,
  read_attributes,
}

abbrev pub items : List Str → Items
items [] = end
items (s ∷ l) = item (text s) (items l)

abbrev pub extra_fields : Assoc → Fields
extra_fields [] = done
extra_fields ((k, vs) ∷ m) = field k (array (items vs)) (extra_fields m)

abbrev pub has_entry : Assoc → Str → Bool
has_entry [] k = false
has_entry ((j, _) ∷ m) k = j == k || has_entry m k

-- Each key has one entry, with at least one value.
abbrev pub IsExtra : Assoc → Type 0
IsExtra [] = Unit
IsExtra ((k, vs) ∷ m) = (vs ≢ []) × (has_entry m k ≡ false) × IsExtra m

-- The spec of a SubjectAccessReview for a request.
abbrev pub resource_fields : Attributes → Fields
resource_fields a = field (str "verb") (text a.verb) (
    field (str "namespace") (text a.namespace)
      (field (str "group") (text a.api_group) (field (str "resource") (text a.resource) done)))

abbrev pub path_fields : Attributes → Fields
path_fields a = field (str "verb") (text a.verb) (field (str "path") (text a.path) done)

abbrev pub review_with : Bool → Attributes → Fields
review_with is_resource a = field (str "user") (text a.user.name) (
    field (str "group") (array (items a.user.groups)) (
      field (str "extra") (object (extra_fields a.user.extra)) (elim is_resource [
        | true ↦ field (str "resourceAttributes") (object (resource_fields a)) done
        | false ↦ field (str "nonResourceAttributes") (object (path_fields a)) done
      ])))

abbrev pub review : Attributes → Fields
review a = review_with a.resource_request a

-- The request as the webhook sees it: a user without an id, and only what the kind of request has.
abbrev pub seen_with : Bool → Attributes → Attributes
seen_with is_resource a = elim is_resource [
  | true ↦ record a { user = record a.user { uid = [] }; path = []; resource_request = true }
  | false ↦ record a {
    user = record a.user { uid = [] };
    namespace = [];
    api_group = [];
    resource = [];
    resource_request = false;
  }
]

abbrev pub seen : Attributes → Attributes
seen a = seen_with a.resource_request a

read_texts-items : (l : List Str) → read_texts (items l) ≡ some l
unfolding read_texts
read_texts-items [] = refl
read_texts-items (s ∷ l) = rw (read_texts-items l) refl

add_extra-last :
    (key v : Str) (vs : List Str) (m : Assoc)
    → has_entry m key ≡ false
    → add_extra key v (m ++ (key, vs) ∷ []) ≡ m ++ (key, vs ++ v ∷ []) ∷ []
add_extra-last key v vs [] h = rw (str_eq_refl key) refl
add_extra-last key v vs ((j, w) ∷ m) h =
    let e : (j == key) ≡ false = ground arith in
    rw (e, add_extra) (ap (λ l. (j, w) ∷ l) (add_extra-last key v vs m (ground arith)))

add_extra-new :
    (key v : Str) (m : Assoc)
    → has_entry m key ≡ false
    → add_extra key v m ≡ m ++ (key, v ∷ []) ∷ []
add_extra-new key v [] h = refl
add_extra-new key v ((j, w) ∷ m) h =
    let e : (j == key) ≡ false = ground arith in
    rw (e, add_extra) (ap (λ l. (j, w) ∷ l) (add_extra-new key v m (ground arith)))

read_values-more :
    (key : Str) (more vs : List Str) (m : Assoc)
    → has_entry m key ≡ false
    → read_values key (items more) (m ++ (key, vs) ∷ []) ≡ some (m ++ (key, vs ++ more) ∷ [])
unfolding read_values
read_values-more key [] vs m h = ap (λ l. some (m ++ (key, l) ∷ [])) (sym (List.append-nil vs))
read_values-more key (v ∷ more) vs m h =
    ap (read_values key (items more)) (add_extra-last key v vs m h)
    ∙ (read_values-more key more (vs ++ v ∷ []) m h
        ∙ ap (λ l. some (m ++ (key, l) ∷ [])) (List.append_assoc vs (v ∷ []) more))

read_values-items :
    (key : Str) (vs : List Str) (m : Assoc)
    → vs ≢ []
    → has_entry m key ≡ false
    → read_values key (items vs) m ≡ some (m ++ (key, vs) ∷ [])
unfolding read_values
read_values-items key [] m ne h = absurd (ne refl)
read_values-items key (v ∷ more) m ne h =
    ap (read_values key (items more)) (add_extra-new key v m h)
    ∙ read_values-more key more (v ∷ []) m h

has_entry-snoc :
    (m : Assoc) (k : Str) (vs : List Str) (j : Str)
    → has_entry (m ++ (k, vs) ∷ []) j ≡ (has_entry m j || k == j)
has_entry-snoc [] k vs j = ground arith
has_entry-snoc ((i, w) ∷ m) k vs j = ground (arith, has_entry-snoc m k vs j)

-- No key of the second map has an entry in the first.
abbrev AreApart : Assoc → Assoc → Type 0
AreApart acc [] = Unit
AreApart acc ((k, _) ∷ m) = (has_entry acc k ≡ false) × AreApart acc m

snoc-AreApart :
    (acc : Assoc) (k : Str) (vs : List Str) (m : Assoc)
    → AreApart acc m
    → has_entry m k ≡ false
    → AreApart (acc ++ (k, vs) ∷ []) m
snoc-AreApart acc k vs [] a h = tt
snoc-AreApart acc k vs ((j, w) ∷ m) a h = (
  ground (arith, a.0, has_entry-snoc acc k vs j, str_eq_iff j k, str_eq_iff k j),
  snoc-AreApart acc k vs m a.1 (ground arith),
)

none-AreApart : (m : Assoc) → AreApart [] m
none-AreApart [] = tt
none-AreApart (_ ∷ m) = (refl, none-AreApart m)

read_extras-fields :
    (m acc : Assoc)
    → IsExtra m
    → AreApart acc m
    → read_extras (extra_fields m) acc ≡ some (acc ++ m)
unfolding read_extras
read_extras-fields [] acc x a = ap some (sym (List.append-nil acc))
read_extras-fields ((k, vs) ∷ m) acc (ne, once, x) (apart, a) =
    rw (read_values-items k vs acc ne apart, read_extras)
      (read_extras-fields m (acc ++ (k, vs) ∷ []) x (snoc-AreApart acc k vs m a once)
        ∙ ap some (List.append_assoc acc ((k, vs) ∷ []) m))

read_user-review :
    (b : Bool) (a : Attributes)
    → IsExtra a.user.extra
    → read_user (review_with b a) ≡ some (record a.user { uid = [] })
unfolding read_user read_extra
read_user-review b a x =
    rw (read_texts-items a.user.groups)
      (rw (read_extras-fields a.user.extra [] x (none-AreApart a.user.extra)) refl)

read_attributes-review_with :
    (b : Bool) (a : Attributes)
    → IsExtra a.user.extra
    → read_attributes (review_with b a) ≡ some (some (seen_with b a))
unfolding read_attributes read_resource read_non_resource get_field
read_attributes-review_with true a x = rw (read_user-review true a x) refl
read_attributes-review_with false a x = rw (read_user-review false a x) refl

-- A review that is made from a request, whose extra attributes have one entry with values for each
-- key, is read as this request with the parts of its kind, and a user without an id.
pub read_attributes-review :
    (a : Attributes) → IsExtra a.user.extra → read_attributes (review a) ≡ some (some (seen a))
read_attributes-review a x = read_attributes-review_with a.resource_request a x
