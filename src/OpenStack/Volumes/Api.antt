-- ===== src/OpenStack/Volumes/Api.antt =====
-- What openstack_volumes.go asks of the block-storage and the compute service (gophercloud), of the
-- file system and of k8s.io/apimachinery.
use cpo.Base.{ℕ, Bool, Option, List, Str}
use cpo.Exec.{Exec}
use cpo.Maps.{Map}
use cpo.OpenStack.Api.{Error, Server, Cloud}
use cpo.OpenStack.Lbaas.Api.{Backoff}

-- The API versions that the program can use.
pub data Version : Type 0 where
  v1 v2 v3 : Version

-- An error: the error of a service, the timeout of package wait, one of the program's own values, `fmt.Errorf`
-- with the text of its format up to the first parameter, a volume that is attached to another node
-- (`DanglingAttachError`: the node and the device), and a volume that is in use when it is deleted.
pub data VolumeError : Type 0 where
  service failed : Str → VolumeError
  known : Error → VolumeError
  timeout in_use : VolumeError
  dangling : Str → Str → VolumeError

-- An attachment of a volume. In the API v1 it is a map whose "server_id" may be missing; one that is there
-- comes with a device.
pub record Attachment : Type 0 where
  pub server_id : Option Str
  pub device : Str

pub record CinderVolume : Type 0 where
  pub id : Str
  pub name : Str
  pub status : Str
  pub availability_zone : Str
  pub size : ℕ
  pub attachments : List Attachment

pub record VolumeCreateOpts : Type 0 where
  pub name : Str
  pub size : ℕ
  pub volume_type : Str
  pub availability : Str
  pub metadata : Map Str

-- A disk in the metadata of an instance.
pub record Device : Type 0 where
  pub kind : Str
  pub serial : Str
  pub bus : Str
  pub address : Str

pub record Cinder : Type 1 where
  pub cloud : Cloud
  -- `NewBlockStorageV1` to `V3`, and `NewComputeV2`
  pub block_storage : Version → Exec VolumeError cloud.State (Unit {0})
  pub compute : Exec VolumeError cloud.State (Unit {0})
  pub get : Version → Str → Exec VolumeError cloud.State CinderVolume
  pub create : Version → VolumeCreateOpts → Exec VolumeError cloud.State CinderVolume
  pub delete : Version → Str → Exec VolumeError cloud.State (Unit {0})
  pub extend : Version → Str → ℕ → Exec VolumeError cloud.State (Unit {0})
  -- instance and volume
  pub attach : Str → Str → Exec VolumeError cloud.State (Unit {0})
  pub detach : Str → Str → Exec VolumeError cloud.State (Unit {0})
  pub get_server : Str → Exec VolumeError cloud.State Server
  -- the names in /dev/disk/by-id, the devices that the metadata service knows, and `filepath.Glob`
  pub disks_by_id : cloud.State → List Str × cloud.State
  pub devices : Exec VolumeError cloud.State (List Device)
  pub glob : Str → Exec VolumeError cloud.State (List Str)
  pub exponential_backoff :
      {L : Type 0}
      → Backoff
      → Exec VolumeError (cloud.State × L) Bool
      → Exec VolumeError (cloud.State × L) (Unit {0})
