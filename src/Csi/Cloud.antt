-- ===== src/Csi/Cloud.antt =====
-- pkg/csi/cinder/openstack/openstack_volumes.go: the volumes as the driver uses them.
use cpo.Base.{
  ℕ, ◌==◌, Bool, false, not, some, none, List, [], map, Str, str, if◌then◌else◌, nat_eq, list_eq,
}
use cpo.Exec.{Result, ok, err, Exec, ◌>>=◌, pure, raise, lift}
use cpo.Csi.Api.{VolumeOpts, Services}
use cpo.OpenStack.Lbaas.Api.{Backoff}
use cpo.OpenStack.Volumes.{Volume, or_fail, available, in_use_status, attached_to, device_path_of}
use cpo.OpenStack.Volumes.Api.{v3, VolumeError, failed, timeout, CinderVolume}

-- A volume of a listing has no attachments, one that was got by its identifier neither size nor zone.
abbrev pub listed : CinderVolume → Volume
listed v = record {
  attached_server_id = [];
  attached_device = [];
  availability_zone = v.availability_zone;
  id = v.id;
  name = v.name;
  status = v.status;
  size = v.size;
}

abbrev pub got : CinderVolume → Volume
got v = record {
  attached_server_id = (attached_to v3 v.attachments).0;
  attached_device = (attached_to v3 v.attachments).1;
  availability_zone = [];
  id = v.id;
  name = v.name;
  status = v.status;
  size = 0;
}

-- The factor is counted in tenths.
abbrev pub attach_backoff : Backoff
attach_backoff = record { duration = 1; factor = 12; steps = 15 }

abbrev pub detach_backoff : Backoff
detach_backoff = record { duration = 1; factor = 12; steps = 13 }

abbrev pub timed_out : {A : Type 0} → Str → Result VolumeError A → Result VolumeError A
timed_out text (err timeout) = err (failed text)
timed_out text r = r

module _ (S : Services) where
  abbrev pub Call : Type 0 → Type 0
  Call A = Exec VolumeError S.cinder.cloud.State A

  unfoldable pub is_not_found : VolumeError → Bool
  is_not_found e = elim (S.http_status e) [ none ↦ false | some status ↦ status == 404 ]

  -- `ExponentialBackoff` with a test that writes no variable, and the text of its timeout.
  unfoldable pub wait_for : Backoff → Str → Call Bool → Call (Unit {0})
  wait_for backoff text test s =
      let (r, l) =
        S.cinder.exponential_backoff {L = Unit {0}} backoff
          (λ p. let (answer, s') = test p.0 in (answer, (s', tt))) (s, tt) in
      (timed_out text r, l.0)

  abbrev pub create_volume_in : VolumeOpts → Call (Str × Str × ℕ)
  create_volume_in opts = S.create opts >>= λ v. pure (v.id, v.availability_zone, v.size)

  unfoldable pub get_volumes_by_name : Str → Call (List Volume)
  get_volumes_by_name name = S.list name >>= λ vs. pure (map listed vs)

  unfoldable pub list_all_volumes : Call (List Volume)
  list_all_volumes = S.list [] >>= λ vs. pure (map listed vs)

  unfoldable pub get_volume : Str → Call Volume
  get_volume volume_id = S.cinder.get v3 volume_id >>= λ v. pure (got v)

  unfoldable pub disk_is_used : Str → Call Bool
  disk_is_used volume_id =
      get_volume volume_id >>= λ volume. pure (not (volume.attached_server_id == []))

  unfoldable pub disk_is_attached : Str → Str → Call Bool
  disk_is_attached instance_id volume_id =
      get_volume volume_id >>= λ volume. pure (instance_id == volume.attached_server_id)

  unfoldable pub delete_volume_of : Str → Call (Unit {0})
  delete_volume_of volume_id = do
    used ← disk_is_used volume_id
    if used then raise (failed (str "Cannot delete the volume")) else S.cinder.delete v3 volume_id

  unfoldable pub attach_got : Str → Volume → Call Str
  attach_got instance_id volume =
      if not (volume.attached_server_id == [])
      then (if instance_id == volume.attached_server_id
          then pure volume.id
          else raise (failed (str "disk")))
      else ((λ s.
            let (r, s') = S.cinder.attach instance_id volume.id s in
            (or_fail (str "failed to attach") r, s'))
          >>= λ _. pure volume.id)

  unfoldable pub attach_volume : Str → Str → Call Str
  attach_volume instance_id volume_id = get_volume volume_id >>= attach_got instance_id

  -- A volume that is deleted in a pause counts as not attached.
  unfoldable pub seen_attached : Str → Str → Call Bool
  seen_attached instance_id volume_id s =
      let (r, s') = disk_is_attached instance_id volume_id s in
      (
        elim r [ ok attached ↦ ok attached | err e ↦ if is_not_found e then ok false else err e ],
        s',
      )

  unfoldable pub wait_disk_attached : Str → Str → Call (Unit {0})
  wait_disk_attached instance_id volume_id =
      wait_for attach_backoff (str "Volume") (seen_attached instance_id volume_id)

  unfoldable pub detach_got : Str → Volume → Call (Unit {0})
  detach_got instance_id volume s =
      if volume.status == available
      then (ok tt, s)
      else if not (volume.status == in_use_status)
      then (err (failed (str "can not detach volume")), s)
      else if not (volume.attached_server_id == instance_id)
      then (err (failed (str "disk:")), s)
      else (let (r, s') = S.cinder.detach instance_id volume.id s in
          (or_fail (str "failed to delete volume") r, s'))

  unfoldable pub detach_volume : Str → Str → Call (Unit {0})
  detach_volume instance_id volume_id = get_volume volume_id >>= detach_got instance_id

  unfoldable pub wait_disk_detached : Str → Str → Call (Unit {0})
  wait_disk_detached instance_id volume_id =
      wait_for detach_backoff (str "Volume")
        (disk_is_attached instance_id volume_id >>= λ attached. pure (not attached))

  unfoldable pub get_attachment_disk_path : Str → Str → Call Str
  get_attachment_disk_path instance_id volume_id = do
    volume ← get_volume volume_id
    lift (device_path_of instance_id volume)
