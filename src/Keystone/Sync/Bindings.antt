-- ===== src/Keystone/Sync/Bindings.antt =====
-- The role bindings of a user: which names are the user's, and what a sync leaves under a name.
use mathlib.Core.Path.{subst}
use cpo.Base.{
  ◌≡◌, refl, ap, ◌∙◌, ◌==◌, Bool, true, false, not, ◌&&◌, ◌||◌, List, [], ◌∷◌, map, Str, str, any,
  Option, contains, if◌then◌else◌, arith, Bool-cases, Option-cases, none, some, take, ◌++◌, inl,
  inr, str_eq_iff, nat_eq, list_eq,
}
use cpo.Strings.{index}
use cpo.Keystone.Policy.{UserInfo, roles_key}
use cpo.Keystone.Sync.Cluster.{RoleBinding, is_named, find_binding}
use cpo.Keystone.Sync.Steps.{binding_name, wanted, is_stale, extra_values, new_binding}

-- The binding that gives a user a role: a reference to the ClusterRole of that name.
abbrev pub granted : UserInfo → Str → RoleBinding
granted u role = record {
  name = u.uid ++ b'_' ∷ role;
  subjects =
      (record { api_group = str "rbac.authorization.k8s.io"; kind = str "User"; name = u.name })
      ∷ [];
  role_ref = record {
    api_group = str "rbac.authorization.k8s.io";
    kind = str "ClusterRole";
    name = role;
  };
}

-- The last of the roles whose binding has this name; there is no other one with the name.
abbrev pub role_of : Str → List Str → Str → Option Str
role_of uid [] n = none
role_of uid (role ∷ roles) n = elim (role_of uid roles n) [
  | some r ↦ some r
  | none ↦ if (uid ++ b'_' ∷ role) == n then some role else none
]

abbrev pub granted_or : UserInfo → Option Str → Option RoleBinding → Option RoleBinding
granted_or u none before = before
granted_or u (some role) before = some (granted u role)

pub without : (stale : Bool) (o : Option RoleBinding) → o ≡ (if stale && false then none else o)
without true o = refl
without false o = refl

pub same_either : (b : Bool) (o : Option RoleBinding) → o ≡ (if b then o else o)
same_either true o = refl
same_either false o = refl

pub deleted :
    (stale eq found : Bool) (o : Option RoleBinding)
    → (eq ≡ true → stale ≡ true)
    → (if stale && found then none else if eq then none else o)
      ≡ (if stale && (eq || found) then none else o)
deleted true true true o h = refl
deleted true true false o h = refl
deleted true false found o h = refl
deleted false true found o h = let k = h refl in cc
deleted false false found o h = refl

pub passed_over :
    (stale eq found : Bool) (o : Option RoleBinding)
    → (eq ≡ true → stale ≡ false)
    → (if stale && found then none else o) ≡ (if stale && (eq || found) then none else o)
passed_over true true found o h = let k = h refl in cc
passed_over true false found o h = refl
passed_over false eq found o h = refl

pub not_created :
    (u : UserInfo) (role : Str) (rest : Option Str) (eq found : Bool) (o : Option RoleBinding)
    → (eq ≡ true → found ≡ true)
    → (if found then o else granted_or u rest o) ≡ (
        if found
        then o
        else granted_or u (elim rest [ some r ↦ some r | none ↦ if eq then some role else none ]) o)
not_created u role rest eq true o h = refl
not_created u role (some r) eq false o h = refl
not_created u role none true false o h = let k = h refl in cc
not_created u role none false false o h = refl

pub created :
    (u : UserInfo) (role : Str) (rest : Option Str) (eq found : Bool) (o : Option RoleBinding)
    → (eq ≡ true → found ≡ false)
    → (if found
        then if eq then some (new_binding u role) else o
        else granted_or u rest (if eq then some (new_binding u role) else o))
      ≡ (if found
          then o
          else granted_or u
              (elim rest [ some r ↦ some r | none ↦ if eq then some role else none ])
              o)
created u role rest true true o h = let k = h refl in cc
created u role rest false true o h = refl
created u role (some r) eq false o h = refl
created u role none true false o h = refl
created u role none false false o h = refl

-- Whether a text starts with another.
abbrev pub begins_with : Str → Str → Bool
begins_with [] n = true
begins_with (p ∷ ps) [] = false
begins_with (p ∷ ps) (x ∷ n) = x == p && begins_with ps n

abbrev pub is_own : Str → Str → Bool
is_own uid n = begins_with (uid ++ b'_' ∷ []) n

-- The part before the first "_" is this text.
abbrev pub owned : Str → Str → Bool
owned uid n = elim (index n b'_') [ none ↦ false | some i ↦ take i n == uid ]

pub owned-is_own : (uid n : Str) → contains uid b'_' ≡ false → owned uid n ≡ is_own uid n
owned-is_own [] [] h = refl
owned-is_own [] (x ∷ n) h = elim (Option-cases (index n b'_')) [
  | inl e ↦ rw (e, owned) (ground arith)
  | inr (i, e) ↦ rw (e, owned) (ground arith)
]
owned-is_own (p ∷ uid) [] h = refl
owned-is_own (p ∷ uid) (x ∷ n) h =
    let ih : owned uid n ≡ is_own uid n = owned-is_own uid n (ground arith) in
    elim (Option-cases (index n b'_')) [
      | inl e ↦ let k : false ≡ is_own uid n = rw (e, owned) at ih in rw (e, owned) (ground arith)
      | inr (i, e) ↦
          let k : (take i n == uid) ≡ is_own uid n = rw (e, owned) at ih in
          rw (e, owned) (ground arith)
    ]

own_name : (uid role : Str) → is_own uid (binding_name uid role) ≡ true
own_name [] role = refl
own_name (x ∷ uid) role = ground (arith, own_name uid role, nat_eq.same_iff x x)

pub own_wanted :
    (uid : Str) (roles : List Str) (n : Str)
    → contains (map (binding_name uid) roles) n ≡ true
    → is_own uid n ≡ true
own_wanted uid [] n h = cc
own_wanted uid (role ∷ roles) n h = elim (Bool-cases (binding_name uid role == n)) [
  | inl e ↦
      subst (λ x. is_own uid x ≡ true) ((str_eq_iff (binding_name uid role) n).0 e)
        (own_name uid role)
  | inr e ↦ own_wanted uid roles n (ground arith)
]

abbrev pub is_some {ℓ} : {A : Type ℓ} → Option A → Bool
is_some none = false
is_some (some a) = true

-- What a user's binding is: the one that is there already, or a new one, for a role of the user; none for no role.
abbrev pub own_binding : UserInfo → Option Str → Option RoleBinding → Option RoleBinding
own_binding u none before = none
own_binding u (some role) none = some (granted u role)
own_binding u (some role) (some b) = some b

-- What a sync leaves under a name, with what was there before.
abbrev pub synced : UserInfo → Str → Option RoleBinding → Option RoleBinding
synced u n before =
    if is_own u.uid n
    then own_binding u (role_of u.uid (extra_values u roles_key) n) before
    else before

abbrev pub deleted_or : Bool → Bool → Option RoleBinding → Option RoleBinding
deleted_or stale found o = if stale && found then none else o

abbrev pub kept_or : UserInfo → Option Str → Bool → Option RoleBinding → Option RoleBinding
kept_or u role found o = if found then o else granted_or u role o

pub sync_cases :
    (u : UserInfo) (role : Option Str) (own : Bool) (o : Option RoleBinding)
    → (is_some role ≡ true → own ≡ true)
    → kept_or u role (is_some o) (deleted_or (own && not (is_some role)) (is_some o) o)
      ≡ (if own then own_binding u role o else o)
sync_cases u none true none h = refl
sync_cases u none true (some b) h = refl
sync_cases u none false none h = refl
sync_cases u none false (some b) h = refl
sync_cases u (some role) true none h = refl
sync_cases u (some role) true (some b) h = refl
sync_cases u (some role) false o h = let k = h refl in cc

pub find_binding-any :
    (n : Str) (items : List RoleBinding) → any (is_named n) items ≡ is_some (find_binding n items)
find_binding-any n [] = refl
find_binding-any n (b ∷ bs) = elim (Bool-cases (is_named n b)) [
  | inl e ↦ rw (e, find_binding) (ground arith)
  | inr e ↦ rw (e, find_binding) (find_binding-any n bs)
]

pub role_of-wanted :
    (uid : Str) (roles : List Str) (n : Str)
    → contains (map (binding_name uid) roles) n ≡ is_some (role_of uid roles n)
role_of-wanted uid [] n = refl
role_of-wanted uid (role ∷ roles) n =
    ap (λ w. binding_name uid role == n || w) (role_of-wanted uid roles n)
    ∙ last role (role_of uid roles n) (binding_name uid role == n)
  where
    last :
        (role : Str) (r : Option Str) (eq : Bool)
        → (eq || is_some r)
          ≡ is_some (elim r [ some r ↦ some r | none ↦ if eq then some role else none ])
    last role none true = refl
    last role none false = refl
    last role (some r) true = refl
    last role (some r) false = refl

pub is_stale-eq :
    (u : UserInfo) (n : Str) → is_stale u n ≡ (owned u.uid n && not (contains (wanted u) n))
is_stale-eq u n = elim (Option-cases (index n b'_')) [
  | inl e ↦ rw (e, is_stale) (rw (e, owned) refl)
  | inr (i, e) ↦ rw (e, is_stale) (rw (e, owned) refl)
]
