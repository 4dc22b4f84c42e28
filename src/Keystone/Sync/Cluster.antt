-- ===== src/Keystone/Sync/Cluster.antt =====
-- The calls of the Kubernetes API that sync.go makes, and what it relies on of them.
use cpo.Base.{
  ◌≡◌, Bool, true, Option, none, some, List, [], ◌∷◌, if◌then◌else◌, ◌==◌, Str, nat_eq, list_eq,
}
use cpo.Exec.{ok, Exec}

pub record Subject : Type 0 where
  pub api_group : Str
  pub kind : Str
  pub name : Str

pub record RoleRef : Type 0 where
  pub api_group : Str
  pub kind : Str
  pub name : Str

pub record RoleBinding : Type 0 where
  pub name : Str
  pub subjects : List Subject
  pub role_ref : RoleRef

pub data KubeError : Type 0 where
  not_found failed : KubeError

-- A call takes the state of the cluster and gives its result and the new state.
pub record Cluster : Type 1 where
  pub State : Type 0
  pub get_namespace : Str → Exec KubeError State (Unit {0})
  pub create_namespace : Str → Exec KubeError State (Unit {0})
  pub list_role_bindings : Str → Exec KubeError State (List RoleBinding)
  pub delete_role_binding : Str → Str → Exec KubeError State (Unit {0})
  pub create_role_binding : Str → RoleBinding → Exec KubeError State (Unit {0})

abbrev pub is_named : Str → RoleBinding → Bool
is_named n b = b.name == n

-- The binding of that name in a listing.
abbrev pub find_binding : Str → List RoleBinding → Option RoleBinding
find_binding n [] = none
find_binding n (b ∷ bs) = let rest = find_binding n bs in if is_named n b then some b else rest

-- `bound ns n s` is the role binding of that name in the namespace in the state `s`, and `exists ns s` tells
-- whether the namespace is there. Nobody else works on the namespace in between.
pub record Kubernetes (C : Cluster) (bound : Str → Str → C.State → Option RoleBinding)
    (exists : Str → C.State → Bool) : Type 0 where
  pub list_reads :
      (ns : Str) (s : C.State) (items : List RoleBinding)
      → (C.list_role_bindings ns s).0 ≡ ok items
      → (n : Str) → bound ns n s ≡ find_binding n items
  pub list_keeps :
      (ns : Str) (s : C.State) (n : Str) → bound ns n (C.list_role_bindings ns s).1 ≡ bound ns n s
  pub delete_removes :
      (ns m : Str) (s : C.State)
      → (C.delete_role_binding ns m s).0 ≡ ok tt
      → (n : Str)
      → bound ns n (C.delete_role_binding ns m s).1 ≡ (if m == n then none else bound ns n s)
  pub create_adds :
      (ns : Str) (b : RoleBinding) (s : C.State)
      → (C.create_role_binding ns b s).0 ≡ ok tt
      → (n : Str)
      → bound ns n (C.create_role_binding ns b s).1 ≡ (if b.name == n then some b else bound ns n s)
  pub get_keeps :
      (ns : Str) (s : C.State) (n : Str) → bound ns n (C.get_namespace ns s).1 ≡ bound ns n s
  pub make_keeps :
      (ns : Str) (s : C.State) (n : Str) → bound ns n (C.create_namespace ns s).1 ≡ bound ns n s
  -- a namespace that was read or created is there, and the calls on role bindings leave it there
  pub get_finds :
      (ns : Str) (s : C.State)
      → (C.get_namespace ns s).0 ≡ ok tt
      → exists ns (C.get_namespace ns s).1 ≡ true
  pub create_makes :
      (ns : Str) (s : C.State)
      → (C.create_namespace ns s).0 ≡ ok tt
      → exists ns (C.create_namespace ns s).1 ≡ true
  pub list_leaves : (ns : Str) (s : C.State) → exists ns (C.list_role_bindings ns s).1 ≡ exists ns s
  pub delete_leaves :
      (ns m : Str) (s : C.State) → exists ns (C.delete_role_binding ns m s).1 ≡ exists ns s
  pub create_leaves :
      (ns : Str) (b : RoleBinding) (s : C.State)
      → exists ns (C.create_role_binding ns b s).1 ≡ exists ns s
