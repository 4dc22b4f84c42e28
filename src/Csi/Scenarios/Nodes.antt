-- ===== src/Csi/Scenarios/Nodes.antt =====
-- A host whose state is the paths on which something is mounted: the theorem of the node service at a concrete
-- input, and tests.
use cpo.Base.{
  ◌≡◌, refl, Bool, true, false, not, some, [], ◌∷◌, ◌==◌, Str, str, str_eq_refl, nat_eq, list_eq,
  if◌then◌else◌,
}
use cpo.Exec.{ok, err, ok-injective}
use cpo.OpenStack.Volumes.Api.{failed, Cinder}
use cpo.OpenStack.Idle.{idle_cinder}
use cpo.OpenStack.Volumes.Small.{tested_once}
use cpo.Csi.Node.{
  Host, VolumeCapability, node_publish_volume, is_likely_not_mount_point_attach, unmount_at,
  is_likely_not_mount_point_detach, node_unpublish_volume, get_node_id, mount_instance_id,
}
use cpo.Csi.Node.Mounted.{node_request-mounts}
use cpo.Csi.Node.Requests.{MountLaws, publish}
use cpo.Strings.{trim_space}

abbrev Mounts : Type 0
Mounts = Str → Bool

abbrev mark : Str → Bool → Mounts → Mounts
mark target b s w = if w == target then b else s w

abbrev mounting : Cinder
mounting = record (idle_cinder Mounts) {
  disks_by_id = λ s. (str "virtio-01234567-89ab-cdef-0" ∷ [], s);
  exponential_backoff = λ _ m p. (tested_once (m p).0, (m p).1);
}

abbrev host : Host
host = record {
  cinder = mounting;
  is_likely_not_mount_point = λ target s. (ok (not (s target)), s);
  make_directory = λ _ s. (ok tt, s);
  format_and_mount = λ _ target _ _ s. (ok tt, mark target true s);
  mount = λ _ target _ _ s. (ok tt, mark target true s);
  clean_up_mount_point = λ target s. (ok tt, mark target false s);
  read_instance_id = λ s. (ok [], s);
  metadata = λ s. (ok (str "i1", str "nova"), s);
  is_not_exist = λ _. false;
}

mark-same : (target : Str) (b : Bool) (s : Mounts) → mark target b s target ≡ b
mark-same target b s = rw (str_eq_refl target, if◌then◌else◌) refl

not-false : (b : Bool) → not b ≡ false → b ≡ true
not-false true h = refl
not-false false h = cc

host_laws : MountLaws host
host_laws = record {
  mounted = λ s. s;
  tested = λ target s h. not-false (s target) (ok-injective _ _ h);
  format_and_mounted = λ _ target _ _ s _. mark-same target true s;
  bound = λ _ target _ _ s _. mark-same target true s;
  cleaned_up = λ target s _. mark-same target false s;
}

abbrev file_system : VolumeCapability
file_system = record { mount = some (str "xfs", []); block = false }

abbrev unmounted : Mounts
unmounted w = false

published_at :
    (node_publish_volume host (str "/stage") (str "/pod") (some file_system) false unmounted).0
    ≡ ok tt
unfolding node_publish_volume is_likely_not_mount_point_attach
published_at = refl

node_request-mounts_example :
    (node_publish_volume host (str "/stage") (str "/pod") (some file_system) false unmounted).1
      (str "/pod")
    ≡ true
unfolding host_laws
node_request-mounts_example =
    node_request-mounts host host_laws (str "/pod")
      (publish (str "/stage") (some file_system) false)
      (node_publish_volume host (str "/stage") (str "/pod") (some file_system) false) unmounted refl
      published_at

-- An empty file of cloud-init hides the identifier of the metadata service.
blank_id : (get_node_id host unmounted).0 ≡ ok []
unfolding get_node_id mount_instance_id trim_space
blank_id = refl

not_mounted_again :
    (node_unpublish_volume host (str "/pod") unmounted).0 ≡ err (failed (str "Volume not mounted"))
unfolding unmount_at is_likely_not_mount_point_detach
not_mounted_again = refl
