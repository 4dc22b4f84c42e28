-- ===== src/OpenStack/Volumes/Scenarios.antt =====
-- The theorem on volumes at a concrete input, and tests.
use cpo.Base.{
  ◌≡◌, refl, true, false, none, some, List, [], ◌∷◌, ◌==◌, str, nat_eq, list_eq, if◌then◌else◌,
}
use mathlib.Core.Option
use cpo.Exec.{ok, err}
use cpo.OpenStack.Volumes.{
  BlockStorageOpts, first_version, volume_service, get_volume_of, get_volume, get_node_name_by_id,
  attached_elsewhere, attach_volume, attach_disk, detach_in_use, detach_volume, detach_disk,
  round_up_size, round_up_to_gib, expand_available, expand_volume, disk_is_used, delete_volume,
  disk_is_attached,
}
use cpo.OpenStack.Volumes.Api.{in_use, dangling}
use cpo.OpenStack.Volumes.Attached.{run-stays_attached}
use cpo.OpenStack.Volumes.Disks.{candidates_of, find_candidate, note_attached, disks_are_attached}
use cpo.OpenStack.Volumes.Small.{Servers, small, small_laws}
use cpo.OpenStack.Volumes.Operations.{Operation, attach, detach, expand, delete, apply, run}

abbrev bs_opts : BlockStorageOpts
bs_opts = record {
  bs_version = str "auto";
  trust_device_path = false;
  ignore_volume_az = false;
  region = str "RegionOne";
}

-- The volume "a" is attached to the server "x", no other is attached.
abbrev start : Servers
start w = if w == str "a" then str "x" else []

abbrev calls : List Operation
calls =
    attach (str "y") (str "a")
    ∷ detach (str "y") (str "a")
    ∷ attach (str "x") (str "b")
    ∷ delete (str "a")
    ∷ expand (str "a") 5000000000
    ∷ detach (str "x") (str "b")
    ∷ delete (str "b")
    ∷ []

run-stays_attached_example : run small bs_opts calls start (str "a") ≡ str "x"
run-stays_attached_example =
    run-stays_attached small small_laws bs_opts (str "x") (str "a") (λ h. cc) calls start refl refl

detached_in_the_end : run small bs_opts (detach (str "x") (str "a") ∷ []) start (str "a") ≡ []
unfolding run apply detach_disk detach_volume detach_in_use get_volume get_volume_of volume_service
    first_version
detached_in_the_end = refl

attached_at_another :
    (attach_disk small bs_opts (str "y") (str "a") start).0
    ≡ err (dangling (str "x") (str "/dev/vdb"))
unfolding attach_disk attach_volume attached_elsewhere get_node_name_by_id get_volume get_volume_of
    volume_service first_version
attached_at_another = refl

used_is_kept : (delete_volume small bs_opts (str "a") start).0 ≡ err in_use
unfolding delete_volume disk_is_used get_volume get_volume_of volume_service first_version
used_is_kept = refl

expanded : (expand_volume small bs_opts (str "b") 5000000000 start).0 ≡ ok 5
unfolding expand_volume expand_available round_up_to_gib round_up_size get_volume get_volume_of
    volume_service first_version
expanded = refl

-- A volume that is not attached counts as attached to the empty instance.
attached_to_nothing : (disk_is_attached small bs_opts [] (str "b") start).0 ≡ ok true
unfolding disk_is_attached get_volume get_volume_of volume_service first_version
attached_to_nothing = refl

listed :
    (disks_are_attached small bs_opts (str "x") (str "a" ∷ str "b" ∷ []) start).0
    ≡ ok ((str "a", true) ∷ (str "b", false) ∷ [])
unfolding disks_are_attached note_attached disk_is_attached get_volume get_volume_of volume_service
    first_version
listed = refl

short_id_panics : candidates_of (str "a") ≡ none
unfolding candidates_of
short_id_panics = refl

found_by_serial :
    Option.map
      (λ c. find_candidate c (str "sda" ∷ str "virtio-01234567-89ab-cdef-0" ∷ []))
      (candidates_of (str "01234567-89ab-cdef-0123-456789abcdef"))
    ≡ some (str "/dev/disk/by-id/virtio-01234567-89ab-cdef-0")
unfolding candidates_of find_candidate
found_by_serial = refl
