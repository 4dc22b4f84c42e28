-- ===== src/Keystone/Sync/Config.antt =====
-- The sync configuration of sync.go: `syncConfig`, its check and the names of namespaces.
use cpo.Base.{
  ℕ, Bool, false, not, ◌&&◌, ◌||◌, List, [], ◌∷◌, ◌==◌, if◌then◌else◌, leb, Str, str, length,
  contains, nat_eq, list_eq,
}
use cpo.Exec.{Result, ok, err}
use cpo.Strings.Marks.{contains_mark, replace_mark}

pub record SyncConfig : Type 0 where
  pub data_types_to_sync : List Str
  pub namespace_format : Str
  pub project_black_list : List Str

abbrev pub projects : Str
projects = str "projects"

abbrev pub role_assignments : Str
role_assignments = str "role_assignments"

abbrev pub allowed_data_types_to_sync : List Str
allowed_data_types_to_sync = projects ∷ role_assignments ∷ []

abbrev pub new_sync_config : SyncConfig
new_sync_config = record {
  data_types_to_sync = allowed_data_types_to_sync;
  namespace_format = str "%i";
  project_black_list = [];
}

-- The errors of `validate`, without their texts.
pub data ConfigError : Type 0 where
  no_project_id bad_name : ConfigError
  unsupported : Str → ConfigError

-- [a-zA-Z0-9]
abbrev pub is_alphanumeric : ℕ → Bool
is_alphanumeric c =
    (leb b'a' c && leb c b'z') || ((leb b'A' c && leb c b'Z') || (leb b'0' c && leb c b'9'))

-- [a-zA-Z0-9_.-]
abbrev pub is_name_byte : ℕ → Bool
is_name_byte c = is_alphanumeric c || (c == b'_' || (c == b'.' || c == b'-'))

-- [a-zA-Z0-9_.-]*[a-zA-Z0-9]$
abbrev pub tail_matches : Str → Bool
tail_matches [] = false
tail_matches (x ∷ []) = is_alphanumeric x
tail_matches (x ∷ y ∷ s) = is_name_byte x && tail_matches (y ∷ s)

-- ^[a-zA-Z0-9][a-zA-Z0-9_.-]*[a-zA-Z0-9]$
abbrev pub name_matches : Str → Bool
name_matches [] = false
name_matches (x ∷ s) = is_alphanumeric x && tail_matches s

-- The loop over the data types.
unfoldable pub check_types : List Str → Result ConfigError (Unit {0})
check_types [] = ok tt
check_types (dt ∷ types) =
    let rest = check_types types in
    if not (contains allowed_data_types_to_sync dt) then err (unsupported dt) else rest

-- `ts`: the format with "aa" for each mark.
abbrev pub sample : Str → Str
sample format =
    replace_mark b'd' (str "aa")
      (replace_mark b'n' (str "aa") (replace_mark b'i' (str "aa") format))

unfoldable pub validate : SyncConfig → Result ConfigError (Unit {0})
unfolding check_types
validate sc =
    if not (contains_mark b'i' sc.namespace_format)
    then err no_project_id
    else if not (name_matches (sample sc.namespace_format))
    then err bad_name
    else check_types sc.data_types_to_sync

-- `res`: the format with the project's id and name and the user's domain for the marks.
abbrev pub filled : Str → Str → Str → Str → Str
filled format id name domain =
    replace_mark b'd' domain (replace_mark b'n' name (replace_mark b'i' id format))

unfoldable pub format_namespace_name : SyncConfig → Str → Str → Str → Str
format_namespace_name sc id name domain =
    let res = filled sc.namespace_format id name domain in
    if not (leb (length res) 63) then id else res
