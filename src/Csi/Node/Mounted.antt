-- ===== src/Csi/Node/Mounted.antt =====
-- nodeserver.go: where a volume is mounted after a request that ends well.
use cpo.Base.{
  ◌≡◌, refl, sym, ap, ◌∙◌, inl, inr, Bool, true, false, ◌||◌, Bool-cases, Option, none, some, List,
  [], ◌==◌, Str, str, nat_eq, list_eq,
}
use cpo.OpenStack.Volumes.Disks.{candidates_of}
use cpo.Exec.{Result, ok, err, continue, ◌>>=◌, pure, raise, ok-injective}
use cpo.Exec.Panics.{OnSome, some-OnSome, if-OnSome, map-OnSome}
use cpo.Csi.Node.Requests.{MountLaws, Request, stage, publish, unstage, unpublish, request, mounts}
use cpo.Exec.Post.{Post, bind-Post, if-Post, raise-Post}
use cpo.Csi.Node.{
  Host, VolumeCapability, fs_type_of, internal, Call, or_internal, test_or_make, test_or_fail,
  is_likely_not_mount_point_attach, is_likely_not_mount_point_detach, mount_if, node_publish_volume,
  unmount_at, mount_device, stage_device, node_stage_volume,
}
use cpo.OpenStack.Volumes.Api.{VolumeError, failed}

internal-ok : {A : Type 0} (r : Result VolumeError A) (a : A) → internal r ≡ ok a → r ≡ ok a
internal-ok (ok b) a h = h
internal-ok (err e) a h = cc

made-true :
    {S : Type 0} (r : Result VolumeError (Unit {0})) (s : S) (b : Bool)
    → (continue r (λ _. pure true) s).0 ≡ ok b
    → b ≡ true
made-true (ok _) s b h = sym (ok-injective _ _ h)
made-true (err e) s b h = cc

module _ (H : Host) (laws : MountLaws H) (target : Str) where
  abbrev IsMounted : Bool → {A : Type 0} → A → H.cinder.cloud.State → Type 0
  IsMounted b a s = laws.mounted s target ≡ b

  or_internal-Post :
      {A : Type 0} (m : Call H A) (s : H.cinder.cloud.State) (Q : A → H.cinder.cloud.State → Type 0)
      → Post m s Q
      → Post (or_internal H m) s Q
  or_internal-Post m s Q k a h = k a (internal-ok (m s).0 a h)

  test_or_make-Mounted :
      (r : Result VolumeError Bool) (s : H.cinder.cloud.State) (b : Bool)
      → (r ≡ ok false → laws.mounted s target ≡ true)
      → (test_or_make H target r s).0 ≡ ok b
      → b ≡ false
      → laws.mounted (test_or_make H target r s).1 target ≡ true
  test_or_make-Mounted (ok c) s b told h f = told (ap ok (ok-injective _ _ h ∙ f))
  test_or_make-Mounted (err e) s b told h f = elim (Bool-cases (H.is_not_exist e)) [
    | inl t ↦ (let g : b ≡ true = made-true (H.make_directory target s).0 _ b (rw t at h) in cc)
    | inr t ↦ (let k : ◌≡◌ {A = Result VolumeError Bool} (err e) (ok b) = rw t at h in cc)
  ]

  -- A target that is not said to be no mount point is one.
  tested-Mounted :
      (s : H.cinder.cloud.State)
      → Post
          (is_likely_not_mount_point_attach H target)
          s
          λ b s'. b ≡ false → laws.mounted s' target ≡ true
  unfolding is_likely_not_mount_point_attach
  tested-Mounted s b h f =
      test_or_make-Mounted (H.is_likely_not_mount_point target s).0 _ b (laws.tested target s) h f

  test_or_fail-ok : (r : Result VolumeError Bool) (b : Bool) → test_or_fail H r ≡ ok b → r ≡ ok b
  test_or_fail-ok (ok c) b h = h
  test_or_fail-ok (err e) b h = elim (Bool-cases (H.is_not_exist e)) [
    | inl t ↦ (let k : ◌≡◌ {A = Result VolumeError Bool} (err _) (ok b) = rw t at h in cc)
    | inr t ↦ (let k : ◌≡◌ {A = Result VolumeError Bool} (err e) (ok b) = rw t at h in cc)
  ]

  mount_if-Mounted :
      (b : Bool) (m : Call H (Unit {0})) (s : H.cinder.cloud.State)
      → (b ≡ false → laws.mounted s target ≡ true)
      → Post m s (IsMounted true)
      → Post (mount_if H b m) s (IsMounted true)
  mount_if-Mounted true m s here made u h = made u h
  mount_if-Mounted false m s here made u h = here refl

  formatted-Mounted :
      (device fs_type : Str) (flags : List Str) (s : H.cinder.cloud.State)
      → Post (or_internal H (H.format_and_mount device target fs_type flags)) s (IsMounted true)
  formatted-Mounted device fs_type flags s =
      or_internal-Post (H.format_and_mount device target fs_type flags) s (IsMounted true)
        λ u h. laws.format_and_mounted device target fs_type flags s h

  mount_device-Mounted :
      (device : Str) (mount : Option (Str × List Str)) (block : Bool) (s : H.cinder.cloud.State)
      → Post
          (mount_device H device target (record { mount = mount; block = block }))
          s
          (IsMounted true)
  mount_device-Mounted device (some (fs_type, flags)) block s = formatted-Mounted device _ flags s
  mount_device-Mounted device none true s =
      raise-Post (failed (str "Block volume support is not yet implemented")) s (IsMounted true)
  mount_device-Mounted device none false s = formatted-Mounted device (str "ext4") [] s

  -- What follows the test of the target.
  attach-Mounted :
      (m : Call H (Unit {0})) (s : H.cinder.cloud.State)
      → ((s' : H.cinder.cloud.State) → Post m s' (IsMounted true))
      → Post
          (or_internal H (is_likely_not_mount_point_attach H target) >>= λ b. mount_if H b m)
          s
          (IsMounted true)
  attach-Mounted m s made =
      bind-Post (or_internal H (is_likely_not_mount_point_attach H target)) _ s (IsMounted true) (
        or_internal-Post (is_likely_not_mount_point_attach H target) s
          (λ b s'. Post (mount_if H b m) s' (IsMounted true))
          λ b h. mount_if-Mounted b m _ (tested-Mounted s b h) (made _))

  stage_device-Mounted :
      (c : VolumeCapability) (device : Str) (s : H.cinder.cloud.State)
      → Post (stage_device H target c device) s (IsMounted true)
  unfolding stage_device
  stage_device-Mounted c device s =
      if-Post (device == []) (raise (failed (str "Unable to find Device path for volume"))) _ s
        (IsMounted true)
        (λ _. raise-Post (failed (str "Unable to find Device path for volume")) s (IsMounted true))
        (λ _.
          attach-Mounted (mount_device H device target c) s
            (mount_device-Mounted device c.mount c.block))

  unmount_at-Mounted :
      (text : Str) (s : H.cinder.cloud.State) → Post (unmount_at H text target) s (IsMounted false)
  unfolding unmount_at
  unmount_at-Mounted text s =
      if-Post (target == []) (raise (failed text)) _ s (IsMounted false)
        (λ _. raise-Post (failed text) s (IsMounted false))
        λ _.
          bind-Post (or_internal H (is_likely_not_mount_point_detach H target)) _ s
            (IsMounted false)
            λ b _.
              if-Post b (raise (failed (str "Volume not mounted"))) _ _ (IsMounted false)
                (λ _. raise-Post (failed (str "Volume not mounted")) _ (IsMounted false))
                λ _.
                  or_internal-Post (H.clean_up_mount_point target) _ (IsMounted false)
                    λ u h. laws.cleaned_up target _ h

  publish-Mounted :
      (source : Str) (capability : Option VolumeCapability) (readonly : Bool)
      (s : H.cinder.cloud.State)
      → Post (node_publish_volume H source target capability readonly) s (IsMounted true)
  unfolding node_publish_volume
  publish-Mounted source none readonly s =
      raise-Post (failed (str "NodePublishVolume missing required arguments")) s (IsMounted true)
  publish-Mounted source (some c) readonly s =
      if-Post (source == [] || target == [])
        (raise (failed (str "NodePublishVolume missing required arguments"))) _ s (IsMounted true)
        (λ _.
          raise-Post (failed (str "NodePublishVolume missing required arguments")) s
            (IsMounted true))
        λ _. attach-Mounted _ s λ s'.
          or_internal-Post (H.mount source target (fs_type_of c) _) s' (IsMounted true)
            λ u h. laws.bound source target (fs_type_of c) _ s' h

  stage-Mounted :
      (volume_id : Str) (capability : Option VolumeCapability) (s : H.cinder.cloud.State)
      → OnSome (λ m. Post m s (IsMounted true)) (node_stage_volume H volume_id target capability)
  unfolding node_stage_volume
  stage-Mounted volume_id none s =
      if-OnSome (λ m. Post m s (IsMounted true)) (target == [])
        (some (raise (failed (str "Staging target not provided"))))
        (some (raise (failed (str "NodeStageVolume Volume Capability must be provided"))))
        (raise-Post (failed (str "Staging target not provided")) s (IsMounted true))
        (raise-Post (failed (str "NodeStageVolume Volume Capability must be provided")) s
          (IsMounted true))
  stage-Mounted volume_id (some c) s =
      if-OnSome (λ m. Post m s (IsMounted true)) (target == [])
        (some (raise (failed (str "Staging target not provided")))) _
        (raise-Post (failed (str "Staging target not provided")) s (IsMounted true))
        (map-OnSome (λ m. Post m s (IsMounted true)) _ (candidates_of volume_id)
          λ candidates. stage_device-Mounted c _ _)

  abbrev Mounts : Request → H.cinder.cloud.State → Call H (Unit {0}) → Type 0
  Mounts r s m = Post m s (IsMounted (mounts r))

  request-Mounts :
      (r : Request) (s : H.cinder.cloud.State) → OnSome (Mounts r s) (request H target r)
  request-Mounts (stage volume_id capability) s = stage-Mounted volume_id capability s
  request-Mounts (publish source capability readonly) s =
      publish-Mounted source capability readonly s
  request-Mounts (unstage) s = unmount_at-Mounted _ s
  request-Mounts (unpublish) s = unmount_at-Mounted _ s

  -- Where the package mount keeps what it promises: after a `NodeStageVolume` or a `NodePublishVolume` that ends
  -- well, something is mounted on the path that it was given as the target, and after a `NodeUnstageVolume` or a
  -- `NodeUnpublishVolume` that ends well, nothing is.
  pub node_request-mounts :
      (r : Request) (m : Call H (Unit {0})) (s : H.cinder.cloud.State)
      → request H target r ≡ some m
      → (m s).0 ≡ ok tt
      → laws.mounted (m s).1 target ≡ mounts r
  node_request-mounts r m s h e =
      some-OnSome (Mounts r s) (request H target r) m h (request-Mounts r s) tt e
