-- ===== src/OpenStack/Volumes/Operations.antt =====
-- openstack_volumes.go: sequences of operations on volumes.
use cpo.Base.{ℕ, Bool, false, ◌&&◌, ◌==◌, List, [], ◌∷◌, Str, nat_eq, list_eq}
use cpo.OpenStack.Volumes.{
  BlockStorageOpts, attach_disk, detach_disk, expand_volume, create_volume, delete_volume,
}
use cpo.OpenStack.Volumes.Api.{VolumeCreateOpts, Cinder}

-- A call with its arguments: the instance first, then the volume.
pub data Operation : Type 0 where
  attach detach : Str → Str → Operation
  expand : Str → ℕ → Operation
  create : VolumeCreateOpts → Operation
  delete : Str → Operation

-- The call asks to detach the volume from the instance.
abbrev pub detaches : Str → Str → Operation → Bool
detaches i v (detach j w) = j == i && w == v
detaches i v _ = false

module _ (C : Cinder) (opts : BlockStorageOpts) where
  unfoldable pub apply : Operation → C.cloud.State → C.cloud.State
  apply (attach i v) s = (attach_disk C opts i v s).1
  apply (detach i v) s = (detach_disk C opts i v s).1
  apply (expand v size) s = (expand_volume C opts v size s).1
  apply (create create_opts) s = (create_volume C opts create_opts s).1
  apply (delete v) s = (delete_volume C opts v s).1

  unfoldable pub run : List Operation → C.cloud.State → C.cloud.State
  run [] s = s
  run (o ∷ os) s = run os (apply o s)
