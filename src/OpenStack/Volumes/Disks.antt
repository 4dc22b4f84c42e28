-- ===== src/OpenStack/Volumes/Disks.antt =====
-- openstack_volumes.go: which of a list of volumes are attached to a server, and the paths of their
-- devices.
use cpo.Base.{
  ℕ, ◌==◌, Bool, true, false, not, ◌&&◌, Option, none, some, List, [], ◌∷◌, ◌++◌, Str, str,
  if◌then◌else◌, ltb, take, length, contains, nat_eq, list_eq,
}
use mathlib.Core.Option
use cpo.Exec.{Result, ok, err, Exec, ◌>>=◌, pure, raise}
use cpo.Maps.{Map, put}
use cpo.OpenStack.Api.{not_found, Server}
use cpo.OpenStack.Lbaas.Api.{Backoff}
use cpo.OpenStack.Lbaas.Subnets.{after_last}
use cpo.OpenStack.Servers.{get_server_by_name}
use cpo.OpenStack.Volumes.{Call, BlockStorageOpts, Volume, get_volume, disk_is_attached}
use cpo.OpenStack.Volumes.Api.{VolumeError, failed, known, timeout, Device, Cinder}

-- What the loop of `DisksAreAttached` notes of an answer: `err == ErrNotFound` counts as detached.
abbrev pub noted : Result VolumeError Bool → Bool
noted (ok attached) = attached
noted (err (known not_found)) = false
noted (err _) = true

abbrev pub all_detached : Map Bool → List Str → Map Bool
all_detached attached [] = attached
all_detached attached (id ∷ ids) = all_detached (put id false attached) ids

-- The identifier of a server, as both functions take it out of "/" + srv.ID.
abbrev pub instance_id_of : Server → Str
instance_id_of server = after_last b'/' (b'/' ∷ server.id)

abbrev without_byte : ℕ → Str → Str
without_byte c [] = []
without_byte c (x ∷ s) = (if x == c then [] else x ∷ []) ++ without_byte c s

-- `volumeID[:20]` panics, `none`, on a shorter text.
unfoldable pub candidates_of : Str → Option (List Str)
candidates_of volume_id =
    if ltb (length volume_id) 20
    then none
    else some (
        (str "virtio-" ++ take 20 volume_id)
        ∷ (str "scsi-0QEMU_QEMU_HARDDISK_" ++ take 20 volume_id)
        ∷ (str "wwn-0x" ++ without_byte b'-' volume_id)
        ∷ [])

-- The first of the names that is a candidate.
unfoldable pub find_candidate : List Str → List Str → Str
find_candidate candidates [] = []
find_candidate candidates (f ∷ fs) =
    let rest = find_candidate candidates fs in
    if contains candidates f then str "/dev/disk/by-id/" ++ f else rest

-- The first device that is a disk with this serial number.
abbrev pub find_device : Str → List Device → Option Device
find_device volume_id [] = none
find_device volume_id (d ∷ ds) =
    let rest = find_device volume_id ds in
    if d.kind == str "disk" && d.serial == volume_id then some d else rest

abbrev pub disk_pattern : Device → Str
disk_pattern d = str "/dev/disk/by-path/*-" ++ d.bus ++ str "-" ++ d.address

-- The only path, or none.
abbrev pub only_path : Result VolumeError (List Str) → Str
only_path (ok (p ∷ [])) = p
only_path (ok _) = []
only_path (err _) = []

abbrev pub operation_finish_backoff : Backoff
operation_finish_backoff = record { duration = 1; factor = 11; steps = 15 }

-- What follows the backoff: `err == wait.ErrWaitTimeout`, or an empty path.
abbrev pub path_found : Result VolumeError (Unit {0}) → Str → Result VolumeError Str
path_found (err timeout) path = err (failed (str "Failed to find device for the volumeID:"))
path_found _ path =
    if path == [] then err (failed (str "Device path was empty for volumeID:")) else ok path

abbrev pub labels_of : BlockStorageOpts → Volume → Map Str
labels_of opts volume =
    put (str "failure-domain.beta.kubernetes.io/region") opts.region
      (put (str "failure-domain.beta.kubernetes.io/zone") volume.availability_zone [])

module _ (C : Cinder) where
  -- `getServerByName`, with its errors as they are.
  unfoldable pub known_server : Str → Call C Server
  known_server name s =
      let (r, s') = get_server_by_name C.cloud name s in
      (elim r [ ok server ↦ ok server | err e ↦ err (known e) ], s')

  -- A server that is not found any more has no volumes.
  abbrev pub attached_to_found :
      BlockStorageOpts → Str → Result VolumeError Server → Call C (Bool × Str)
  attached_to_found opts volume_id (ok server) =
      disk_is_attached C opts (instance_id_of server) volume_id >>= λ attached.
      pure (attached, instance_id_of server)
  attached_to_found opts volume_id (err (known not_found)) = pure (false, [])
  attached_to_found opts volume_id (err e) = raise e

  unfoldable pub disk_is_attached_by_name : BlockStorageOpts → Str → Str → Call C (Bool × Str)
  disk_is_attached_by_name opts node_name volume_id = C.compute >>= λ _ s.
      let (r, s') = known_server node_name s in attached_to_found opts volume_id r s'

  unfoldable pub note_attached :
      BlockStorageOpts → Str → List Str → Map Bool → C.cloud.State → Map Bool × C.cloud.State
  note_attached opts instance_id [] attached s = (attached, s)
  note_attached opts instance_id (id ∷ ids) attached s =
      let (r, s') = disk_is_attached C opts instance_id id s in
      note_attached opts instance_id ids (put id (noted r) attached) s'

  unfoldable pub disks_are_attached : BlockStorageOpts → Str → List Str → Call C (Map Bool)
  disks_are_attached opts instance_id ids s =
      let (attached, s') = note_attached opts instance_id ids [] s in (ok attached, s')

  abbrev pub disks_of_found :
      BlockStorageOpts → List Str → Result VolumeError Server → Call C (Map Bool)
  disks_of_found opts ids (ok server) = disks_are_attached opts (instance_id_of server) ids
  disks_of_found opts ids (err (known not_found)) = pure (all_detached [] ids)
  disks_of_found opts ids (err e) = raise e

  unfoldable pub disks_are_attached_by_name : BlockStorageOpts → Str → List Str → Call C (Map Bool)
  disks_are_attached_by_name opts node_name ids =
      C.compute >>= λ _ s. let (r, s') = known_server node_name s in disks_of_found opts ids r s'

  -- The rest of `GetDevicePathBySerialID`; a directory that cannot be read has no names.
  unfoldable pub device_path_by_serial_id : List Str → C.cloud.State → Str × C.cloud.State
  device_path_by_serial_id candidates s =
      let (files, s') = C.disks_by_id s in (find_candidate candidates files, s')

  abbrev pub path_of_device : Option Device → C.cloud.State → Str × C.cloud.State
  path_of_device none s = ([], s)
  path_of_device (some d) s = let (r, s') = C.glob (disk_pattern d) s in (only_path r, s')

  unfoldable pub get_device_path_from_instance_metadata : Str → C.cloud.State → Str × C.cloud.State
  get_device_path_from_instance_metadata volume_id s =
      let (r, s') = C.devices s in
      path_of_device (elim r [ ok devices ↦ find_device volume_id devices | err _ ↦ none ]) s'

  -- A test of the backoff, which writes the variable `devicePath`.
  unfoldable pub find_path : Str → List Str → Exec VolumeError (C.cloud.State × Str) Bool
  find_path volume_id candidates (s, _) =
      let (by_serial, s') = device_path_by_serial_id candidates s in
      let (by_metadata, s'') = get_device_path_from_instance_metadata volume_id s' in
      if not (by_serial == [])
      then (ok true, (s', by_serial))
      else (ok (not (by_metadata == [])), (s'', by_metadata))

  -- `none` is the panic of the first test.
  unfoldable pub get_device_path : Str → Option (Call C Str)
  get_device_path volume_id =
      Option.map
        (λ candidates s.
          let (r, l) =
            C.exponential_backoff operation_finish_backoff (find_path volume_id candidates)
              (s, []) in
          (path_found r l.1, l.0))
        (candidates_of volume_id)

  -- The volume of a PersistentVolume, if it is of Cinder; `none` is no labels.
  unfoldable pub get_labels_for_volume : BlockStorageOpts → Option Str → Call C (Option (Map Str))
  get_labels_for_volume opts none = pure none
  get_labels_for_volume opts (some volume_id) =
      if volume_id == str "placeholder-for-provisioning"
      then pure none
      else (get_volume C opts volume_id >>= λ volume. pure (some (labels_of opts volume)))
