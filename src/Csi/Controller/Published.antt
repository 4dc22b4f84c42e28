-- ===== src/Csi/Controller/Published.antt =====
-- controllerserver.go: what holds of a volume that was published.
use cpo.Base.{
  ◌≡◌, ◌≢◌, sym, ap, ◌∙◌, inl, inr, Bool-cases, [], ◌==◌, Str, str_eq_iff, str_neq, nat_eq, list_eq,
}
use cpo.Exec.{Result, ok, err, ok-injective}
use cpo.Exec.Post.{Post, bind-Post, pure-Post}
use cpo.Csi.Api.{Services}
use cpo.Csi.Cloud.{got, get_volume, attach_volume, wait_disk_attached, get_attachment_disk_path}
use cpo.Csi.Controller.{controller_publish_volume}
use cpo.OpenStack.Volumes.{Volume, in_use_status, device_path_of}
use cpo.OpenStack.Volumes.Api.{v3, VolumeError}
use cpo.OpenStack.Volumes.Laws.{CinderLaws}

device_path_of-ok :
    (instance_id : Str) (volume : Volume) (path : Str)
    → device_path_of instance_id volume ≡ ok path
    → (instance_id ≡ volume.attached_server_id)
      × (volume.attached_server_id ≢ [])
      × (path ≡ volume.attached_device)
unfolding device_path_of
device_path_of-ok instance_id volume path h = elim (Bool-cases (volume.status == in_use_status)) [
  | inl a ↦ elim (Bool-cases (volume.attached_server_id == [])) [
    | inl b ↦
        (let k : ◌≡◌ {A = Result VolumeError Str} (err _) (ok path) = rw b at (rw a at h) in cc)
    | inr b ↦ elim (Bool-cases (instance_id == volume.attached_server_id)) [
      | inl c ↦
          let k : ◌≡◌ {A = Result VolumeError Str} (ok volume.attached_device) (ok path) =
            rw c at (rw b at (rw a at h)) in
          ((str_eq_iff _ _).0 c, str_neq _ _ b, sym (ok-injective _ _ k))
      | inr c ↦
          (let k : ◌≡◌ {A = Result VolumeError Str} (err _) (ok path) =
              rw c at (rw b at (rw a at h)) in
            cc)
    ]
  ]
  | inr a ↦ (let k : ◌≡◌ {A = Result VolumeError Str} (err _) (ok path) = rw a at h in cc)
]

module _ (S : Services) (laws : CinderLaws S.cinder) (node_id volume_id : Str) where
  abbrev Published : S.cinder.cloud.State → Type 0
  Published s = (laws.attached s volume_id ≡ node_id) × (node_id ≢ [])

  abbrev Tells : Volume → S.cinder.cloud.State → Type 0
  Tells volume s = volume.attached_server_id ≡ laws.attached s volume_id

  get_volume-Tells : (s : S.cinder.cloud.State) → Post (get_volume S volume_id) s Tells
  unfolding get_volume
  get_volume-Tells s = bind-Post (S.cinder.get v3 volume_id) _ s Tells λ v h.
      pure-Post (got v) _ Tells (
        laws.get_attached v3 volume_id s v h
        ∙ ap (λ f. f volume_id) (sym ((laws.get_keeps v3 volume_id).at s)))

  path-Published :
      (s : S.cinder.cloud.State)
      → Post (get_attachment_disk_path S node_id volume_id) s (λ path. Published)
  unfolding get_attachment_disk_path
  path-Published s =
      bind-Post (get_volume S volume_id) _ s (λ path. Published)
        λ volume h path e.
          let (same, set, _) = device_path_of-ok node_id volume path e in
          (sym (get_volume-Tells s volume h) ∙ sym same, λ n. set (sym same ∙ n))

  -- Where the service keeps what it promises of attachments, a volume that `ControllerPublishVolume` was asked
  -- to publish is attached to the node when it ends well, whatever the wait did, and the node has a name.
  pub controller_publish_volume-attached :
      (s : S.cinder.cloud.State) (path : Str)
      → (controller_publish_volume S node_id volume_id s).0 ≡ ok path
      → (laws.attached (controller_publish_volume S node_id volume_id s).1 volume_id ≡ node_id)
        × (node_id ≢ [])
  unfolding controller_publish_volume
  controller_publish_volume-attached s path h =
      bind-Post (attach_volume S node_id volume_id) _ s (λ path. Published)
        (λ id e.
          bind-Post (wait_disk_attached S node_id volume_id) _ _ (λ path. Published)
            λ u k. path-Published _)
        path h
