-- ===== src/OpenStack/Volumes.antt =====
-- openstack_volumes.go: volumes of Cinder, and their attachment to servers.
pub mod Api
pub mod Attached
pub mod Disks
pub mod Kept
pub mod Laws
pub mod Operations
pub mod Reads
mod Scenarios
pub mod Small
use cpo.Base.{
  ℕ, ◌+◌, ◌*◌, ◌/◌, ◌%◌, ◌^◌, ◌==◌, Bool, true, false, not, ◌&&◌, ◌||◌, Option, none, some, List,
  [], ◌∷◌, ◌++◌, Str, str, if◌then◌else◌, ltb, leb, take, nat_eq, list_eq,
}
use cpo.Exec.{Result, ok, err, Exec, ◌>>=◌, ◌>>◌, pure, raise, lift}
use cpo.Maps.{Map, put}
use cpo.OpenStack.Api.{Error, not_found, Server}
use cpo.OpenStack.Servers.{get_server_by_name}
use cpo.OpenStack.Volumes.Api.{
  Version, v1, v2, v3, VolumeError, service, failed, known, timeout, in_use, dangling, Attachment,
  CinderVolume, VolumeCreateOpts, Cinder,
}

pub record Volume : Type 0 where
  pub attached_server_id : Str
  pub attached_device : Str
  pub availability_zone : Str
  pub id : Str
  pub name : Str
  pub status : Str
  pub size : ℕ

-- `os.bsOpts` and `os.region`
pub record BlockStorageOpts : Type 0 where
  pub bs_version : Str
  pub trust_device_path : Bool
  pub ignore_volume_az : Bool
  pub region : Str

abbrev pub available : Str
available = str "available"

abbrev pub in_use_status : Str
in_use_status = str "in-use"

abbrev or_empty : Option Str → Str
or_empty none = []
or_empty (some s) = s

-- The first attachment; the API v1 may leave its server out.
abbrev pub attached_to : Version → List Attachment → Str × Str
attached_to version [] = ([], [])
attached_to v1 (a ∷ _) = elim a.server_id [ none ↦ ([], []) | some id ↦ (id, a.device) ]
attached_to v2 (a ∷ _) = (or_empty a.server_id, a.device)
attached_to v3 (a ∷ _) = (or_empty a.server_id, a.device)

abbrev pub to_volume : Version → CinderVolume → Volume
to_volume version v = record {
  attached_server_id = (attached_to version v.attachments).0;
  attached_device = (attached_to version v.attachments).1;
  availability_zone = v.availability_zone;
  id = v.id;
  name = v.name;
  status = v.status;
  size = v.size;
}

-- Replaces the error of a call.
abbrev pub or_fail : {A : Type 0} → Str → Result VolumeError A → Result VolumeError A
or_fail text (ok a) = ok a
or_fail text (err e) = err (failed text)

abbrev pub failing : {S A : Type 0} → Str → Exec VolumeError S A → Exec VolumeError S A
failing text m s = let (r, s') = m s in (or_fail text r, s')

-- `RoundUpSize` and `RoundUpToGiBInt`: the cast to `int`, which has 64 bits, changes nothing.
unfoldable pub round_up_size : ℕ → ℕ → ℕ
round_up_size bytes unit = bytes / unit + (if ltb 0 (bytes % unit) then 1 else 0)

unfoldable pub round_up_to_gib : ℕ → ℕ
round_up_to_gib bytes = round_up_size bytes (2 ^ 30)

-- What `OperationPending` makes of a status.
unfoldable pub pending_of : Str → Result VolumeError (Bool × Str)
pending_of status =
    if status == str "error"
    then err (failed (str "status of volume"))
    else if status == available || (status == in_use_status || status == str "deleted")
    then ok (false, status)
    else ok (true, status)

abbrev pub should_trust_device_path : BlockStorageOpts → Bool
should_trust_device_path opts = opts.trust_device_path

unfoldable pub device_path_of : Str → Volume → Result VolumeError Str
device_path_of instance_id volume =
    if not (volume.status == in_use_status)
    then err (failed (str "can not get device path of volume"))
    else if volume.attached_server_id == []
    then err (failed (str "volume"))
    else if instance_id == volume.attached_server_id
    then ok volume.attached_device
    else err (failed (str "disk"))

module _ (C : Cinder) where
  abbrev pub Call : Type 0 → Type 0
  Call A = Exec VolumeError C.cloud.State A

  -- The first of the versions that a client can be made for.
  unfoldable pub first_version : List Version → Call Version
  first_version [] s = (err (failed (str "BlockStorage API version autodetection failed.")), s)
  first_version (v ∷ vs) s =
      let (r, s') = C.block_storage v s in
      let rest = first_version vs s' in elim r [ ok _ ↦ (ok v, s') | err _ ↦ rest ]

  -- `volumeService("")`
  unfoldable pub volume_service : Str → Call Version
  volume_service bs_version =
      if bs_version == str "v1"
      then (C.block_storage v1 >>= λ _. pure v1)
      else if bs_version == str "v2"
      then (C.block_storage v2 >>= λ _. pure v2)
      else if bs_version == str "v3"
      then (C.block_storage v3 >>= λ _. pure v3)
      else if bs_version == str "auto"
      then first_version (v3 ∷ v2 ∷ v1 ∷ [])
      else raise (failed (str "Config error: unrecognised bs-version"))

  -- `createVolume`, `deleteVolume`, `expandVolume` and `getVolume` of the three services
  abbrev pub create_volume_of : VolumeCreateOpts → Version → Call (Str × Str)
  create_volume_of opts version = C.create version opts >>= λ v. pure (v.id, v.availability_zone)

  abbrev pub delete_volume_of : Str → Version → Call (Unit {0})
  delete_volume_of volume_id version = C.delete version volume_id

  abbrev pub expand_volume_of : Str → ℕ → Version → Call (Unit {0})
  expand_volume_of volume_id new_size version = C.extend version volume_id new_size

  unfoldable pub get_volume_of : Str → Version → Call Volume
  get_volume_of volume_id version = do
    v ← failing (str "error occurred getting volume by ID:") (C.get version volume_id)
    pure (to_volume version v)

  unfoldable pub get_volume : BlockStorageOpts → Str → Call Volume
  get_volume opts volume_id =
      failing (str "unable to initialize cinder client for region:")
        (volume_service opts.bs_version)
      >>= get_volume_of volume_id

  unfoldable pub operation_pending : BlockStorageOpts → Str → Call (Bool × Str)
  operation_pending opts disk_name = do
    volume ← get_volume opts disk_name
    lift (pending_of volume.status)

  unfoldable pub get_node_name_by_id : Str → Call Str
  get_node_name_by_id instance_id = do
    _ ← C.compute
    server ← C.get_server instance_id
    pure (C.cloud.to_lower server.name)

  -- The volume is attached to another server: the node of that server is looked up for the error.
  unfoldable pub attached_elsewhere : Volume → Call Str
  attached_elsewhere volume s =
      let (r, s') = get_node_name_by_id volume.attached_server_id s in
      (
        elim r [
          | ok node ↦ err (dangling node volume.attached_device)
          | err _ ↦ err (failed (str "disk"))
        ],
        s',
      )

  unfoldable pub attach_volume : Str → Volume → Call Str
  attach_volume instance_id volume = do
    _ ← C.compute
    if not (volume.attached_server_id == [])
        then (if instance_id == volume.attached_server_id
            then pure volume.id
            else attached_elsewhere volume)
        else (failing (str "failed to attach") (C.attach instance_id volume.id) >>= λ _.
            pure volume.id)

  unfoldable pub attach_disk : BlockStorageOpts → Str → Str → Call Str
  attach_disk opts instance_id volume_id = get_volume opts volume_id >>= attach_volume instance_id

  unfoldable pub detach_in_use : Str → Volume → Call (Unit {0})
  detach_in_use instance_id volume = do
    _ ← C.compute
    if not (volume.attached_server_id == instance_id)
        then raise (failed (str "disk:"))
        else failing (str "failed to delete volume") (C.detach instance_id volume.id)

  unfoldable pub detach_volume : Str → Volume → Call (Unit {0})
  detach_volume instance_id volume =
      if volume.status == available
      then pure tt
      else if not (volume.status == in_use_status)
      then raise (failed (str "can not detach volume"))
      else detach_in_use instance_id volume

  unfoldable pub detach_disk : BlockStorageOpts → Str → Str → Call (Unit {0})
  detach_disk opts instance_id volume_id = get_volume opts volume_id >>= detach_volume instance_id

  -- The new size in GiB. The old size, which is returned beside an error, is left out.
  unfoldable pub expand_available : BlockStorageOpts → Str → ℕ → Volume → Call ℕ
  expand_available opts volume_id new_size volume =
      let gib = round_up_to_gib new_size in
      if leb gib volume.size then pure gib else (do
        version ← volume_service opts.bs_version
        _ ← expand_volume_of volume_id gib version
        pure gib)

  unfoldable pub expand_volume : BlockStorageOpts → Str → ℕ → Call ℕ
  expand_volume opts volume_id new_size = do
    volume ← get_volume opts volume_id
    if not (volume.status == available)
        then raise (failed (str "volume status is not available"))
        else expand_available opts volume_id new_size volume

  -- The identifier, the availability zone, the region, and whether the zone is to be ignored. The options
  -- are made of the arguments, without metadata for a nil pointer.
  unfoldable pub create_volume : BlockStorageOpts → VolumeCreateOpts → Call (Str × Str × Str × Bool)
  create_volume opts create_opts = do
    version ←
        failing (str "unable to initialize cinder client for region:")
          (volume_service opts.bs_version)
    v ← failing (str "failed to create a") (create_volume_of create_opts version)
    pure (v.0, v.1, opts.region, opts.ignore_volume_az)

  unfoldable pub disk_is_used : BlockStorageOpts → Str → Call Bool
  disk_is_used opts volume_id =
      get_volume opts volume_id >>= λ volume. pure (not (volume.attached_server_id == []))

  unfoldable pub delete_volume : BlockStorageOpts → Str → Call (Unit {0})
  delete_volume opts volume_id = do
    used ← disk_is_used opts volume_id
    if used then raise in_use else (do
      version ←
          failing (str "unable to initialize cinder client for region:")
            (volume_service opts.bs_version)
      delete_volume_of volume_id version)

  unfoldable pub get_attachment_disk_path : BlockStorageOpts → Str → Str → Call Str
  get_attachment_disk_path opts instance_id volume_id = do
    volume ← get_volume opts volume_id
    lift (device_path_of instance_id volume)

  unfoldable pub disk_is_attached : BlockStorageOpts → Str → Str → Call Bool
  disk_is_attached opts instance_id volume_id =
      get_volume opts volume_id >>= λ volume. pure (instance_id == volume.attached_server_id)
