-- ===== src/Csi/Scenarios.antt =====
-- A service whose state is the list of its volumes: the theorems of the driver at concrete inputs, and tests.
mod Nodes
use cpo.Base.{◌≡◌, ◌≢◌, refl, sym, ap, false, none, some, List, [], ◌∷◌, str, nat_eq, list_eq}
use cpo.Exec.{ok, err, ok-injective}
use cpo.OpenStack.Api.{Cloud, not_found}
use cpo.OpenStack.Api as Api
use cpo.OpenStack.Volumes.{round_up_size, device_path_of}
use cpo.OpenStack.Volumes.Api.{timeout, CinderVolume, Cinder}
use cpo.OpenStack.Idle.{idle_cinder}
use cpo.OpenStack.Volumes.Small as Attached
use cpo.Csi.Api.{VolumeOpts, Services, CreateVolumeRequest, CsiVolume}
use cpo.Csi.Cloud.{
  get_volumes_by_name, get_volume, attach_got, attach_volume, wait_for, wait_disk_attached,
  seen_attached, disk_is_attached, get_attachment_disk_path,
}
use cpo.Csi.Controller.{
  size_of, availability_of, create_named, create_volume, controller_publish_volume,
}
use cpo.Csi.Controller.Again.{with_name, ListingLaws, create_volume-again}
use cpo.Csi.Controller.Published.{controller_publish_volume-attached}

abbrev Volumes : Type 0
Volumes = List CinderVolume

abbrev new_volume : VolumeOpts → CinderVolume
new_volume o = record {
  id = b'v' ∷ o.name;
  name = o.name;
  status = str "creating";
  availability_zone = o.availability_zone;
  size = o.size;
  attachments = [];
}

abbrev volumes_only : Services
volumes_only = record {
  cinder = idle_cinder Volumes;
  create = λ o s. (ok (new_volume o), new_volume o ∷ s);
  list = λ name s. (ok (with_name name s), s);
  create_snapshot = λ _ s. (err timeout, s);
  list_snapshots = λ _ s. (ok [], s);
  delete_snapshot = λ _ s. (ok tt, s);
  get_snapshot = λ _ s. (err timeout, s);
  http_status = λ _. none;
  timestamp = λ t. some t;
}

listing_laws : ListingLaws volumes_only
listing_laws = record {
  volumes = λ s. s;
  list_keeps = λ _. record { at = λ s. refl };
  list_named = λ name s vs h. sym (ok-injective _ _ h);
  created = λ o s v h.
      (ap (λ x. x ∷ s) (ok-injective _ _ h), ap (λ x. x.name) (sym (ok-injective _ _ h)));
}

abbrev three_gib : CreateVolumeRequest
three_gib = record {
  name = str "pvc-1";
  required_bytes = some 3000000000;
  parameters = [];
  accessibility = none;
  snapshot = some (str "snap");
}

abbrev ten_gib : CreateVolumeRequest
ten_gib = record {
  name = str "pvc-1";
  required_bytes = some 10737418240;
  parameters = [];
  accessibility = none;
  snapshot = none;
}

abbrev answer : CsiVolume
answer = record {
  volume_id = str "vpvc-1";
  capacity_bytes = 3221225472;
  topology = ((str "topology.cinder.csi.openstack.org/zone", []) ∷ []) ∷ [];
}

created_once :
    (create_volume volumes_only (str "c") three_gib []).0 ≡ ok (answer, some (str "snap"))
unfolding create_volume create_named get_volumes_by_name size_of availability_of round_up_size
created_once = refl

abbrev other_volume : CinderVolume
other_volume = record {
  id = str "other";
  name = str "pvc-2";
  status = str "available";
  availability_zone = [];
  size = 1;
  attachments = [];
}

-- Another volume has been created in between.
create_volume-again_example :
    let t = other_volume ∷ (create_volume volumes_only (str "c") three_gib []).1 in
    ((create_volume volumes_only (str "c") ten_gib t).0 ≡ ok (answer, none))
    × ((create_volume volumes_only (str "c") ten_gib t).1 ≡ t)
unfolding listing_laws
create_volume-again_example =
    create_volume-again volumes_only listing_laws (str "c") three_gib ten_gib []
      (other_volume ∷ (create_volume volumes_only (str "c") three_gib []).1) [] _
      (answer, some (str "snap")) refl created_once refl refl refl

-- The service of attachments, where the first test of a wait decides.
abbrev attaching : Services
attaching = record {
  cinder = Attached.small;
  create = λ _ s. (err timeout, s);
  list = λ _ s. (ok [], s);
  create_snapshot = λ _ s. (err timeout, s);
  list_snapshots = λ _ s. (ok [], s);
  delete_snapshot = λ _ s. (ok tt, s);
  get_snapshot = λ _ s. (err timeout, s);
  http_status = λ _. none;
  timestamp = λ t. some t;
}

abbrev free : Attached.Servers
free w = []

published : (controller_publish_volume attaching (str "x") (str "a") free).0 ≡ ok (str "/dev/vdb")
unfolding controller_publish_volume attach_volume attach_got get_volume wait_disk_attached wait_for
    seen_attached disk_is_attached get_attachment_disk_path device_path_of
published = refl

controller_publish_volume-attached_example :
    ((controller_publish_volume attaching (str "x") (str "a") free).1 (str "a") ≡ str "x")
    × (str "x" ≢ [])
controller_publish_volume-attached_example =
    controller_publish_volume-attached attaching Attached.small_laws (str "x") (str "a") free
      (str "/dev/vdb") published
