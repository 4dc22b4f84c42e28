-- ===== src/Csi/Api.antt =====
-- What pkg/csi/cinder asks of the block-storage service beside what the cloud provider asks, and the
-- requests and answers of the CSI interface.
use cpo.Base.{ℕ, Bool, Option, List, Str}
use cpo.Exec.{Exec}
use cpo.Maps.{Map}
use cpo.OpenStack.Volumes.Api.{VolumeError, CinderVolume, Cinder}

pub record VolumeOpts : Type 0 where
  pub name : Str
  pub size : ℕ
  pub volume_type : Str
  pub availability_zone : Str
  pub description : Str
  pub snapshot_id : Str
  pub metadata : Map Str

pub record Snapshot : Type 0 where
  pub id : Str
  pub name : Str
  pub volume_id : Str
  pub status : Str
  pub size : ℕ
  pub created_at : Str

-- The filters of a listing of snapshots, each empty where it is not set.
pub record SnapshotFilter : Type 0 where
  pub name : Str
  pub status : Str
  pub volume_id : Str

pub record SnapshotOpts : Type 0 where
  pub volume_id : Str
  pub name : Str
  pub description : Str
  pub metadata : Map Str

-- The clients in `cinder` are those that the driver was made with.
pub record Services : Type 1 where
  pub cinder : Cinder
  pub create : VolumeOpts → Exec VolumeError cinder.cloud.State CinderVolume
  -- all pages of the volumes with a name, or of all volumes for the empty one
  pub list : Str → Exec VolumeError cinder.cloud.State (List CinderVolume)
  pub create_snapshot : SnapshotOpts → Exec VolumeError cinder.cloud.State Snapshot
  pub list_snapshots : SnapshotFilter → Exec VolumeError cinder.cloud.State (List Snapshot)
  pub delete_snapshot : Str → Exec VolumeError cinder.cloud.State (Unit {0})
  pub get_snapshot : Str → Exec VolumeError cinder.cloud.State Snapshot
  -- the HTTP status of an error of gophercloud
  pub http_status : VolumeError → Option ℕ
  -- `ptypes.TimestampProto`
  pub timestamp : Str → Option Str

pub record TopologyRequirement : Type 0 where
  pub preferred : List (Map Str)
  pub requisite : List (Map Str)

-- `none` is a nil pointer; `snapshot` is the identifier of a source that is a snapshot.
pub record CreateVolumeRequest : Type 0 where
  pub name : Str
  pub required_bytes : Option ℕ
  pub parameters : Map Str
  pub accessibility : Option TopologyRequirement
  pub snapshot : Option Str

pub record CsiVolume : Type 0 where
  pub volume_id : Str
  pub capacity_bytes : ℕ
  pub topology : List (Map Str)

pub record CsiSnapshot : Type 0 where
  pub snapshot_id : Str
  pub size_bytes : ℕ
  pub source_volume_id : Str
  pub creation_time : Option Str
  pub ready_to_use : Bool
