-- ===== src/OpenStack/Volumes/Laws.antt =====
-- What the program relies on of the block-storage service: the server that each volume is attached to.
use cpo.Base.{ℕ, ◌≡◌, ◌≢◌, Str, []}
use cpo.Exec.{ok, err}
use cpo.Exec.Keeps.{Keeps}
use cpo.OpenStack.Volumes.{attached_to, available}
use cpo.OpenStack.Volumes.Api.{Version, VolumeError, CinderVolume, VolumeCreateOpts, Cinder}

pub record CinderLaws (C : Cinder) : Type 0 where
  -- the server of a volume, empty for a volume that is not attached
  pub attached : C.cloud.State → Str → Str
  pub block_storage_keeps : (v : Version) → Keeps attached (C.block_storage v)
  pub compute_keeps : Keeps attached C.compute
  pub get_keeps : (v : Version) (id : Str) → Keeps attached (C.get v id)
  pub get_server_keeps : (id : Str) → Keeps attached (C.get_server id)
  pub create_keeps : (v : Version) (opts : VolumeCreateOpts) → Keeps attached (C.create v opts)
  pub extend_keeps : (v : Version) (id : Str) (size : ℕ) → Keeps attached (C.extend v id size)
  pub get_id :
      (v : Version) (id : Str) (s : C.cloud.State) (volume : CinderVolume)
      → (C.get v id s).0 ≡ ok volume
      → volume.id ≡ id
  pub get_attached :
      (v : Version) (id : Str) (s : C.cloud.State) (volume : CinderVolume)
      → (C.get v id s).0 ≡ ok volume
      → (attached_to v volume.attachments).0 ≡ attached s id
  pub get_available :
      (v : Version) (id : Str) (s : C.cloud.State) (volume : CinderVolume)
      → (C.get v id s).0 ≡ ok volume
      → volume.status ≡ available
      → attached s id ≡ []
  pub attach_ok :
      (instance_id id : Str) (s : C.cloud.State)
      → (C.attach instance_id id s).0 ≡ ok tt
      → attached (C.attach instance_id id s).1 id ≡ instance_id
  pub attach_err :
      (instance_id id : Str) (s : C.cloud.State) (e : VolumeError)
      → (C.attach instance_id id s).0 ≡ err e
      → attached (C.attach instance_id id s).1 ≡ attached s
  pub attach_others :
      (instance_id id other : Str) (s : C.cloud.State)
      → other ≢ id
      → attached (C.attach instance_id id s).1 other ≡ attached s other
  pub detach_ok :
      (instance_id id : Str) (s : C.cloud.State)
      → (C.detach instance_id id s).0 ≡ ok tt
      → attached (C.detach instance_id id s).1 id ≡ []
  pub detach_err :
      (instance_id id : Str) (s : C.cloud.State) (e : VolumeError)
      → (C.detach instance_id id s).0 ≡ err e
      → attached (C.detach instance_id id s).1 ≡ attached s
  pub detach_others :
      (instance_id id other : Str) (s : C.cloud.State)
      → other ≢ id
      → attached (C.detach instance_id id s).1 other ≡ attached s other
  pub delete_others :
      (v : Version) (id other : Str) (s : C.cloud.State)
      → other ≢ id
      → attached (C.delete v id s).1 other ≡ attached s other
