-- ===== src/Csi/Node.antt =====
-- pkg/csi/cinder/nodeserver.go and mount/mount.go, with `GetDevicePath` of pkg/util/metadata: the requests of
-- the CSI node service.
pub mod Mounted
pub mod Requests
use cpo.Base.{
  ℕ, ◌==◌, Bool, true, false, not, ◌&&◌, ◌||◌, Option, none, some, List, [], ◌∷◌, ◌++◌, Str, str,
  if◌then◌else◌, nat_eq, list_eq,
}
use mathlib.Core.Option
use cpo.Exec.{Result, ok, err, Exec, ◌>>=◌, ◌>>◌, pure, raise}
use cpo.Maps.{Map}
use cpo.Csi.Controller.{topology_key}
use cpo.OpenStack.Volumes.Api.{VolumeError, failed, Device, Cinder}
use cpo.OpenStack.Volumes.Disks.{
  candidates_of, device_path_by_serial_id, disk_pattern, operation_finish_backoff, path_found,
}
use cpo.Strings.{trim_space}

-- What the driver asks of its host: the mounts (k8s.io/kubernetes/pkg/util/mount, of which pkg/util/mount is a
-- copy), the files, and the metadata service, which `cinder` has for devices.
pub record Host : Type 1 where
  pub cinder : Cinder
  pub is_likely_not_mount_point : Str → Exec VolumeError cinder.cloud.State Bool
  pub make_directory : Str → Exec VolumeError cinder.cloud.State (Unit {0})
  -- source, target, type of the file system and options
  pub format_and_mount : Str → Str → Str → List Str → Exec VolumeError cinder.cloud.State (Unit {0})
  pub mount : Str → Str → Str → List Str → Exec VolumeError cinder.cloud.State (Unit {0})
  pub clean_up_mount_point : Str → Exec VolumeError cinder.cloud.State (Unit {0})
  pub read_instance_id : Exec VolumeError cinder.cloud.State Str
  -- the UUID and the availability zone, which openstack/openstack_metadata.go reads over HTTP
  pub metadata : Exec VolumeError cinder.cloud.State (Str × Str)
  -- `os.IsNotExist`
  pub is_not_exist : VolumeError → Bool

-- The type of the file system and the flags of a mount, where the capability is one, and whether it is a block.
pub record VolumeCapability : Type 0 where
  pub mount : Option (Str × List Str)
  pub block : Bool

abbrev pub fs_type_of : VolumeCapability → Str
fs_type_of c = elim c.mount [
  | none ↦ str "ext4"
  | some (fs_type, flags) ↦ if fs_type == [] then str "ext4" else fs_type
]

abbrev pub internal : {A : Type 0} → Result VolumeError A → Result VolumeError A
internal (ok a) = ok a
internal (err e) = err (failed (str "Internal"))

module _ (H : Host) where
  abbrev pub Call : Type 0 → Type 0
  Call A = Exec VolumeError H.cinder.cloud.State A

  -- `status.Error(codes.Internal, err.Error())`
  abbrev pub or_internal : {A : Type 0} → Call A → Call A
  or_internal m s = let (r, s') = m s in (internal r, s')

  -- A target that does not exist is made.
  abbrev pub test_or_make : Str → Result VolumeError Bool → Call Bool
  test_or_make target (ok b) = pure b
  test_or_make target (err e) =
      if H.is_not_exist e then (H.make_directory target >> pure true) else raise e

  unfoldable pub is_likely_not_mount_point_attach : Str → Call Bool
  is_likely_not_mount_point_attach target s =
      let (r, s') = H.is_likely_not_mount_point target s in test_or_make target r s'

  abbrev pub test_or_fail : Result VolumeError Bool → Result VolumeError Bool
  test_or_fail (ok b) = ok b
  test_or_fail (err e) =
      if H.is_not_exist e then err (failed (str "targetpath not found")) else err e

  unfoldable pub is_likely_not_mount_point_detach : Str → Call Bool
  is_likely_not_mount_point_detach target s =
      let (r, s') = H.is_likely_not_mount_point target s in (test_or_fail r, s')

  abbrev pub mount_if : Bool → Call (Unit {0}) → Call (Unit {0})
  mount_if true m = m
  mount_if false m = pure tt

  -- staging path, target, capability and `Readonly`
  unfoldable pub node_publish_volume : Str → Str → Option VolumeCapability → Bool → Call (Unit {0})
  node_publish_volume source target none readonly =
      raise (failed (str "NodePublishVolume missing required arguments"))
  node_publish_volume source target (some c) readonly =
      if source == [] || target == []
      then raise (failed (str "NodePublishVolume missing required arguments"))
      else (or_internal (is_likely_not_mount_point_attach target) >>= λ not_mounted.
          mount_if not_mounted (
            or_internal (
              H.mount source target (fs_type_of c)
                (str "bind" ∷ (if readonly then str "ro" else str "rw") ∷ []))))

  -- `NodeUnpublishVolume` and `NodeUnstageVolume`, which differ in the text for an empty path.
  unfoldable pub unmount_at : Str → Str → Call (Unit {0})
  unmount_at text target =
      if target == []
      then raise (failed text)
      else (or_internal (is_likely_not_mount_point_detach target) >>= λ not_mounted.
          if not_mounted
          then raise (failed (str "Volume not mounted"))
          else or_internal (H.clean_up_mount_point target))

  abbrev pub node_unpublish_volume : Str → Call (Unit {0})
  node_unpublish_volume = unmount_at (str "NodeUnpublishVolume Target Path must be provided")

  abbrev pub node_unstage_volume : Str → Call (Unit {0})
  node_unstage_volume = unmount_at (str "NodeUnstageVolume Staging Target Path must be provided")

  abbrev at_paths :
      Result VolumeError (List Str)
      → Str × H.cinder.cloud.State
      → H.cinder.cloud.State
      → Str × H.cinder.cloud.State
  at_paths (err _) later s = ([], s)
  at_paths (ok (p ∷ [])) later s = (p, s)
  at_paths (ok _) later s = later

  -- The loop of the package metadata, which goes on behind a disk that does not have one path.
  unfoldable pub path_of_devices :
      Str → List Device → H.cinder.cloud.State → Str × H.cinder.cloud.State
  path_of_devices volume_id [] s = ([], s)
  path_of_devices volume_id (d ∷ ds) s =
      let (r, s') = H.cinder.glob (disk_pattern d) s in
      let behind = path_of_devices volume_id ds s in
      let later = path_of_devices volume_id ds s' in
      if d.kind == str "disk" && d.serial == volume_id then at_paths r later s' else behind

  unfoldable pub metadata_device_path : Str → H.cinder.cloud.State → Str × H.cinder.cloud.State
  metadata_device_path volume_id s =
      let (r, s') = H.cinder.devices s in
      let path = path_of_devices volume_id (elim r [ ok ds ↦ ds | err _ ↦ [] ]) s' in path

  -- `GetDevicePath` of the mount provider, with the names that it looks for.
  unfoldable pub mount_device_path : List Str → Call Str
  mount_device_path candidates s =
      let (r, l) =
        H.cinder.exponential_backoff operation_finish_backoff
          (λ p.
            let (path, s') = device_path_by_serial_id H.cinder candidates p.0 in
            (ok (not (path == [])), (s', path)))
          (s, []) in
      (path_found r l.1, l.0)

  unfoldable pub get_device_path :
      Str → List Str → H.cinder.cloud.State → Str × H.cinder.cloud.State
  get_device_path volume_id candidates s =
      let (r, s') = mount_device_path candidates s in
      let other = metadata_device_path volume_id s' in
      elim r [ ok path ↦ if path == [] then other else (path, s') | err _ ↦ other ]

  abbrev pub mount_device : Str → Str → VolumeCapability → Call (Unit {0})
  mount_device device target c = elim c.mount [
    | some (fs_type, flags) ↦ or_internal (H.format_and_mount device target (fs_type_of c) flags)
    | none ↦
        if c.block
        then raise (failed (str "Block volume support is not yet implemented"))
        else or_internal (H.format_and_mount device target (str "ext4") [])
  ]

  unfoldable pub stage_device : Str → VolumeCapability → Str → Call (Unit {0})
  stage_device target c device =
      if device == []
      then raise (failed (str "Unable to find Device path for volume"))
      else (or_internal (is_likely_not_mount_point_attach target) >>= λ not_mounted.
          mount_if not_mounted (mount_device device target c))

  -- volume, staging path and capability; `none` is the panic of a slice of the volume's identifier
  unfoldable pub node_stage_volume : Str → Str → Option VolumeCapability → Option (Call (Unit {0}))
  node_stage_volume volume_id target none =
      if target == []
      then some (raise (failed (str "Staging target not provided")))
      else some (raise (failed (str "NodeStageVolume Volume Capability must be provided")))
  node_stage_volume volume_id target (some c) =
      if target == []
      then some (raise (failed (str "Staging target not provided")))
      else Option.map
          (λ candidates s.
            let (device, s') = get_device_path volume_id candidates s in
            stage_device target c device s')
          (candidates_of volume_id)

  -- A file without an identifier gives an empty one, and no error.
  unfoldable pub mount_instance_id : Call Str
  mount_instance_id = H.read_instance_id >>= λ bytes. pure (trim_space bytes)

  unfoldable pub get_node_id : Call Str
  get_node_id s =
      let (r, s') = mount_instance_id s in
      let other = (H.metadata >>= λ m. pure m.0) s' in
      elim r [ ok id ↦ (ok id, s') | err _ ↦ other ]

  abbrev zone_or_empty : Result VolumeError (Str × Str) → Str
  zone_or_empty (ok m) = m.1
  zone_or_empty (err _) = []

  -- The identifier and the topology of the node; an error of the zone is dropped.
  unfoldable pub node_get_info : Call (Str × Map Str)
  node_get_info = get_node_id >>= λ id s.
      let (r, s') = H.metadata s in (ok (id, (topology_key, zone_or_empty r) ∷ []), s')
