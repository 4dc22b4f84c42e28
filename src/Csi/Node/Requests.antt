-- ===== src/Csi/Node/Requests.antt =====
-- nodeserver.go: the requests for a path, and what they rely on.
use cpo.Base.{◌≡◌, Bool, true, false, Option, some, List, Str}
use cpo.Exec.{ok}
use cpo.Csi.Node.{
  Host, VolumeCapability, Call, node_publish_volume, node_unpublish_volume, node_unstage_volume,
  node_stage_volume,
}

-- What the package mount promises of what is mounted. `IsLikelyNotMountPoint` does not detect all mounts,
-- bind mounts among them: only its answer that a path is a mount point says something.
pub record MountLaws (H : Host) : Type 0 where
  pub mounted : H.cinder.cloud.State → Str → Bool
  pub tested :
      (target : Str) (s : H.cinder.cloud.State)
      → (H.is_likely_not_mount_point target s).0 ≡ ok false
      → mounted (H.is_likely_not_mount_point target s).1 target ≡ true
  pub format_and_mounted :
      (source target fs_type : Str) (options : List Str) (s : H.cinder.cloud.State)
      → (H.format_and_mount source target fs_type options s).0 ≡ ok tt
      → mounted (H.format_and_mount source target fs_type options s).1 target ≡ true
  pub bound :
      (source target fs_type : Str) (options : List Str) (s : H.cinder.cloud.State)
      → (H.mount source target fs_type options s).0 ≡ ok tt
      → mounted (H.mount source target fs_type options s).1 target ≡ true
  pub cleaned_up :
      (target : Str) (s : H.cinder.cloud.State)
      → (H.clean_up_mount_point target s).0 ≡ ok tt
      → mounted (H.clean_up_mount_point target s).1 target ≡ false

-- A request for a path: the volume and the capability, or the staging path, the capability and `Readonly`.
pub data Request : Type 0 where
  stage : Str → Option VolumeCapability → Request
  publish : Str → Option VolumeCapability → Bool → Request
  unstage unpublish : Request

abbrev pub request : (H : Host) → Str → Request → Option (Call H (Unit {0}))
request H target (stage volume_id capability) = node_stage_volume H volume_id target capability
request H target (publish source capability readonly) =
    some (node_publish_volume H source target capability readonly)
request H target unstage = some (node_unstage_volume H target)
request H target unpublish = some (node_unpublish_volume H target)

-- Whether the path is mounted afterwards.
abbrev pub mounts : Request → Bool
mounts (stage _ _) = true
mounts (publish _ _ _) = true
mounts unstage = false
mounts unpublish = false
