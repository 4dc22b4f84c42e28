-- ===== src/Csi/Controller.antt =====
-- pkg/csi/cinder/controllerserver.go: the requests of the CSI controller service.
pub mod Again
pub mod Published
use cpo.Base.{
  ℕ, ◌*◌, ◌^◌, ◌==◌, Bool, true, Option, none, some, List, [], ◌∷◌, map, Str, str, if◌then◌else◌,
  nat_eq, list_eq,
}
use mathlib.Core.Option
use cpo.Exec.{Result, ok, err, ◌>>=◌, ◌>>◌, pure, raise}
use cpo.Maps.{Map, get}
use cpo.Csi.Api.{
  VolumeOpts, Snapshot, Services, TopologyRequirement, CreateVolumeRequest, CsiVolume, CsiSnapshot,
}
use cpo.Csi.Cloud.{
  Call, create_volume_in, get_volumes_by_name, list_all_volumes, delete_volume_of, attach_volume,
  wait_disk_attached, detach_volume, wait_disk_detached, get_attachment_disk_path,
}
use cpo.Csi.Snapshots.{
  create_snapshot_of, list_ready_snapshots, get_snapshot_by_name_and_volume_id, wait_snapshot_ready,
}
use cpo.OpenStack.Volumes.{Volume, round_up_size}
use cpo.OpenStack.Volumes.Api.{VolumeError, failed}

abbrev pub gib : ℕ
gib = 2 ^ 30

abbrev pub topology_key : Str
topology_key = str "topology.cinder.csi.openstack.org/zone"

abbrev pub zone_in : List (Map Str) → Option Str
zone_in [] = none
zone_in (t ∷ ts) =
    let rest = zone_in ts in elim (get t topology_key) [ some zone ↦ some zone | none ↦ rest ]

unfoldable pub get_az_from_topology : TopologyRequirement → Str
get_az_from_topology r = elim (zone_in r.preferred) [
  | some zone ↦ zone
  | none ↦ elim (zone_in r.requisite) [ some zone ↦ zone | none ↦ [] ]
]

abbrev or_empty : Option Str → Str
or_empty none = []
or_empty (some s) = s

-- The zone of the topology, or else the parameter.
unfoldable pub availability_of : CreateVolumeRequest → Str
availability_of req =
    let zone = or_empty (Option.map get_az_from_topology req.accessibility) in
    if zone == [] then or_empty (get req.parameters (str "availability")) else zone

unfoldable pub size_of : CreateVolumeRequest → ℕ
size_of req = round_up_size (elim req.required_bytes [ none ↦ gib | some bytes ↦ bytes ]) gib

abbrev pub opts_of : Str → CreateVolumeRequest → VolumeOpts
opts_of cluster req = record {
  name = req.name;
  size = size_of req;
  volume_type = or_empty (get req.parameters (str "type"));
  availability_zone = availability_of req;
  description = str "Created by OpenStack Cinder CSI driver";
  snapshot_id = or_empty req.snapshot;
  metadata = (str "cinder.csi.openstack.org/cluster", cluster) ∷ [];
}

-- Identifier, zone and size; the capacity has 64 bits, which a size below 2 ^ 33 fits.
abbrev pub volume_of : Str × Str × ℕ → CsiVolume
volume_of v = record {
  volume_id = v.0;
  capacity_bytes = v.2 * gib;
  topology = ((topology_key, v.1) ∷ []) ∷ [];
}

abbrev pub entry_of : Volume → CsiVolume
entry_of v = record { volume_id = v.id; capacity_bytes = v.size * gib; topology = [] }

-- The source of the contents, where it is a snapshot with an identifier.
abbrev pub content_source : Str → Option Str
content_source [] = none
content_source (c ∷ s) = some (c ∷ s)

-- The error of a query is logged only.
abbrev pub or_none : {A : Type 0} → Result VolumeError (List A) → List A
or_none (ok xs) = xs
or_none (err e) = []

abbrev pub snapshot_of : (Str → Option Str) → Snapshot → CsiSnapshot
snapshot_of timestamp snap = record {
  snapshot_id = snap.id;
  size_bytes = snap.size * gib;
  source_volume_id = snap.volume_id;
  creation_time = timestamp snap.created_at;
  ready_to_use = true;
}

module _ (S : Services) where
  -- What is made of the volumes with the name of the request: the volume, and the source of its contents.
  abbrev pub choose_volume :
      Str → CreateVolumeRequest → List Volume → Call S (CsiVolume × Option Str)
  choose_volume cluster req [] = create_volume_in S (opts_of cluster req) >>= λ v.
      pure (volume_of v, content_source (or_empty req.snapshot))
  choose_volume cluster req (v ∷ []) = pure (volume_of (v.id, v.availability_zone, v.size), none)
  choose_volume cluster req (v ∷ w ∷ vs) =
      raise (failed (str "multiple volumes reported by Cinder with same name"))

  unfoldable pub create_named : Str → CreateVolumeRequest → Call S (CsiVolume × Option Str)
  create_named cluster req s =
      let (r, s') = get_volumes_by_name S req.name s in choose_volume cluster req (or_none r) s'

  -- The text of `InvalidArgument` is empty.
  unfoldable pub create_volume : Str → CreateVolumeRequest → Call S (CsiVolume × Option Str)
  create_volume cluster req = if req.name == [] then raise (failed []) else create_named cluster req

  unfoldable pub delete_volume : Str → Call S (Unit {0})
  delete_volume volume_id = delete_volume_of S volume_id

  -- The path of the device.
  unfoldable pub controller_publish_volume : Str → Str → Call S Str
  controller_publish_volume node_id volume_id = do
    _ ← attach_volume S node_id volume_id
    _ ← wait_disk_attached S node_id volume_id
    get_attachment_disk_path S node_id volume_id

  unfoldable pub controller_unpublish_volume : Str → Str → Call S (Unit {0})
  controller_unpublish_volume node_id volume_id =
      detach_volume S node_id volume_id >> wait_disk_detached S node_id volume_id

  unfoldable pub list_volumes : Call S (List CsiVolume)
  list_volumes = list_all_volumes S >>= λ vs. pure (map entry_of vs)

  abbrev pub choose_snapshot : Str → Str → Map Str → List Snapshot → Call S Snapshot
  choose_snapshot name volume_id tags [] = create_snapshot_of S name volume_id [] tags
  choose_snapshot name volume_id tags (snap ∷ []) = pure snap
  choose_snapshot name volume_id tags (snap ∷ other ∷ snaps) =
      raise (failed (str "multiple snapshots reported by Cinder with same name"))

  unfoldable pub find_snapshot : Str → Str → Map Str → Call S Snapshot
  find_snapshot name volume_id tags s =
      let (r, s') = get_snapshot_by_name_and_volume_id S name volume_id s in
      choose_snapshot name volume_id tags (or_none r) s'

  unfoldable pub create_snapshot : Str → Str → Map Str → Call S CsiSnapshot
  create_snapshot name volume_id tags = do
    snap ← find_snapshot name volume_id tags
    _ ← wait_snapshot_ready S snap.id
    pure (snapshot_of S.timestamp snap)

  unfoldable pub delete_snapshot : Str → Call S (Unit {0})
  delete_snapshot id = S.delete_snapshot id

  unfoldable pub list_snapshots : Call S (List CsiSnapshot)
  list_snapshots = list_ready_snapshots S >>= λ snaps. pure (map (snapshot_of S.timestamp) snaps)
