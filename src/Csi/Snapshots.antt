-- ===== src/Csi/Snapshots.antt =====
-- pkg/csi/cinder/openstack/openstack_snapshots.go: the snapshots as the driver uses them.
use cpo.Base.{◌==◌, Bool, List, [], Str, str, nat_eq, list_eq}
use cpo.Exec.{◌>>=◌, pure}
use cpo.Maps.{Map}
use cpo.Csi.Api.{Snapshot, SnapshotOpts, Services}
use cpo.Csi.Cloud.{Call, wait_for}
use cpo.OpenStack.Lbaas.Api.{Backoff}

abbrev pub snapshot_ready_status : Str
snapshot_ready_status = str "available"

-- The factor is counted in tenths.
abbrev pub ready_backoff : Backoff
ready_backoff = record { duration = 1; factor = 12; steps = 10 }

-- The options that are made of the arguments.
abbrev pub snapshot_opts : Str → Str → Str → Map Str → SnapshotOpts
snapshot_opts name volume_id description tags = record {
  volume_id = volume_id;
  name = name;
  description = description;
  metadata = tags;
}

module _ (S : Services) where
  unfoldable pub create_snapshot_of : Str → Str → Str → Map Str → Call S Snapshot
  create_snapshot_of name volume_id description tags =
      S.create_snapshot (snapshot_opts name volume_id description tags)

  -- The limit, the offset and the filters that the caller gives are not used.
  unfoldable pub list_ready_snapshots : Call S (List Snapshot)
  list_ready_snapshots =
      S.list_snapshots (record { name = []; status = snapshot_ready_status; volume_id = [] })

  unfoldable pub get_snapshot_by_name_and_volume_id : Str → Str → Call S (List Snapshot)
  get_snapshot_by_name_and_volume_id name volume_id =
      S.list_snapshots (record { name = name; status = []; volume_id = volume_id })

  unfoldable pub snapshot_is_ready : Str → Call S Bool
  snapshot_is_ready id = S.get_snapshot id >>= λ snap. pure (snap.status == snapshot_ready_status)

  unfoldable pub wait_snapshot_ready : Str → Call S (Unit {0})
  wait_snapshot_ready id = wait_for S ready_backoff (str "Timeout, Snapshot") (snapshot_is_ready id)
