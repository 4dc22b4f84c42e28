-- ===== src/OpenStack/Instances.antt =====
-- openstack_instances.go: nodes by name and by provider id.
pub mod ProviderIds
use cpo.Base.{
  ◌==◌, Bool, true, false, ◌||◌, Option, none, some, List, [], ◌∷◌, ◌++◌, if◌then◌else◌, Str, str,
  contains, nat_eq, list_eq,
}
use cpo.Exec.{Result, ok, err, Exec, ◌>>=◌, pure, raise, lift}
use cpo.OpenStack.Api.{Error, not_found, api, Server, Cloud}
use cpo.OpenStack.Servers.{NetworkingOpts, NodeAddress, get_server_by_name, node_addresses}

-- `instance_not_found` is `cloudprovider.InstanceNotFound`, `bad_provider_id` a text of another
-- form, `server_missing` a "not found" of `servers.Get` and `service` another error that is
-- passed on.
pub data InstanceError : Type 0 where
  instance_not_found bad_provider_id server_missing : InstanceError
  service : Error → InstanceError

-- What follows a prefix.
abbrev pub strip_prefix : Str → Str → Option Str
strip_prefix [] s = some s
strip_prefix (p ∷ ps) [] = none
strip_prefix (p ∷ ps) (x ∷ s) = let rest = strip_prefix ps s in if x == p then rest else none

abbrev pub provider_prefix : Str
provider_prefix = str "openstack:///"

-- The match of `^openstack:///([^/]+)$`.
unfoldable pub instance_id_from_provider_id : Str → Result InstanceError Str
instance_id_from_provider_id provider_id = elim (strip_prefix provider_prefix provider_id) [
  | none ↦ err bad_provider_id
  | some id ↦ if id == [] || contains id b'/' then err bad_provider_id else ok id
]

-- A server as `servers.Get` returns it, with its status.
pub record Details : Type 0 where
  pub server : Server
  pub status : Str

-- The errors of `servers.Get`: `missing` is one that `errors.IsNotFound` accepts.
pub data GetError : Type 0 where
  missing : GetError
  failed : Error → GetError

module _ (C : Cloud) (get_server : Str → Exec GetError C.State Details) where
  -- A call of a service in an operation of `Instances`.
  abbrev pub call : {A : Type 0} → Exec Error C.State A → Exec InstanceError C.State A
  call m s = (elim (m s).0 [ ok a ↦ ok a | err e ↦ err (service e) ], (m s).1)

  abbrev pub call_get : Str → Exec InstanceError C.State Details
  call_get id s = (
    elim (get_server id s).0 [
      | ok details ↦ ok details
      | err missing ↦ err server_missing
      | err (failed e) ↦ err (service e)
    ],
    (get_server id s).1,
  )

  -- The same for `getServerByName`, whose ErrNotFound becomes InstanceNotFound.
  abbrev pub by_name : Result Error Server → Result InstanceError Server
  by_name (ok srv) = ok srv
  by_name (err not_found) = err instance_not_found
  by_name (err e) = err (service e)

  abbrev pub call_by_name : Str → Exec InstanceError C.State Server
  call_by_name name s = (by_name (get_server_by_name C name s).0, (get_server_by_name C name s).1)

  unfoldable pub node_addresses_of :
      NetworkingOpts → Str → Exec InstanceError C.State (List NodeAddress)
  node_addresses_of opts name = do
    srv ← call (get_server_by_name C name)
    call (lift (node_addresses C srv opts))

  unfoldable pub node_addresses_by_provider_id :
      NetworkingOpts → Str → Exec InstanceError C.State (List NodeAddress)
  node_addresses_by_provider_id opts provider_id = do
    id ← lift (instance_id_from_provider_id provider_id)
    details ← call_get id
    call (lift (node_addresses C details.server opts))

  unfoldable pub external_id : Str → Exec InstanceError C.State Str
  external_id name = do srv ← call_by_name name; pure srv.id

  unfoldable pub instance_id : Str → Exec InstanceError C.State Str
  instance_id name = do srv ← call_by_name name; pure (b'/' ∷ srv.id)

  -- `servers.Get`, whose "not found" is no error here.
  abbrev pub exists : Result GetError Details → Result InstanceError Bool
  exists (ok _) = ok true
  exists (err missing) = ok false
  exists (err (failed e)) = err (service e)

  unfoldable pub instance_exists_by_provider_id : Str → Exec InstanceError C.State Bool
  instance_exists_by_provider_id provider_id = do
    id ← lift (instance_id_from_provider_id provider_id)
    λ s. (exists (get_server id s).0, (get_server id s).1)

  -- SHUTOFF is the only state in which volumes can be detached at once.
  unfoldable pub instance_shutdown_by_provider_id : Str → Exec InstanceError C.State Bool
  instance_shutdown_by_provider_id provider_id = do
    id ← lift (instance_id_from_provider_id provider_id)
    details ← call_get id
    pure (details.status == str "SHUTOFF")
