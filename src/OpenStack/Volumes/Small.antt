-- ===== src/OpenStack/Volumes/Small.antt =====
-- A block-storage service whose state is the server of each volume.
use cpo.Base.{
  ◌≡◌, ◌≢◌, refl, sym, ap, ◌∙◌, Bool, true, false, none, some, List, [], ◌∷◌, ◌==◌, Str, str,
  str_eq_refl, str_neq_false, nat_eq, list_eq, if◌then◌else◌,
}
use cpo.Exec.{Result, ok, err, ok-injective}
use cpo.OpenStack.Api.{Server}
use cpo.OpenStack.Idle.{idle_cinder}
use cpo.OpenStack.Volumes.{available, in_use_status, attached_to}
use cpo.OpenStack.Volumes.Api.{
  Version, v1, v2, v3, VolumeError, timeout, Attachment, CinderVolume, Cinder,
}
use cpo.OpenStack.Volumes.Laws.{CinderLaws}

abbrev pub Servers : Type 0
Servers = Str → Str

abbrev pub attachments_of : Str → List Attachment
attachments_of [] = []
attachments_of (c ∷ s) = (record { server_id = some (c ∷ s); device = str "/dev/vdb" }) ∷ []

abbrev pub status_of : Str → Str
status_of [] = available
status_of (c ∷ s) = in_use_status

abbrev pub volume_with : Str → Str → CinderVolume
volume_with id server = record {
  id = id;
  name = id;
  status = status_of server;
  availability_zone = str "nova";
  size = 2;
  attachments = attachments_of server;
}

abbrev pub assign : Str → Str → Servers → Servers
assign id server f w = if w == id then server else f w

abbrev pub named : Str → Server
named id = record {
  id = id;
  name = id;
  addresses = none;
  access_ipv4 = [];
  access_ipv6 = [];
  hostname = [];
}

-- A wait whose only test decides.
abbrev pub tested_once : Result VolumeError Bool → Result VolumeError (Unit {0})
tested_once (ok true) = ok tt
tested_once (ok false) = err timeout
tested_once (err e) = err e

abbrev pub small : Cinder
small = record (idle_cinder Servers) {
  get = λ _ id s. (ok (volume_with id (s id)), s);
  create = λ _ o s. (ok (volume_with o.name []), s);
  delete = λ _ id s. (ok tt, assign id [] s);
  attach = λ server id s. (ok tt, assign id server s);
  detach = λ server id s. (ok tt, assign id [] s);
  get_server = λ id s. (ok (named id), s);
  exponential_backoff = λ b m p. (tested_once (m p).0, (m p).1);
}

pub attached_to-attachments_of :
    (v : Version) (server : Str) → (attached_to v (attachments_of server)).0 ≡ server
attached_to-attachments_of v1 [] = refl
attached_to-attachments_of v2 [] = refl
attached_to-attachments_of v3 [] = refl
attached_to-attachments_of v1 (c ∷ s) = refl
attached_to-attachments_of v2 (c ∷ s) = refl
attached_to-attachments_of v3 (c ∷ s) = refl

pub status_of-available : (server : Str) → status_of server ≡ available → server ≡ []
status_of-available [] h = refl
status_of-available (c ∷ s) h = cc

pub assign-same : (id server : Str) (f : Servers) → assign id server f id ≡ server
assign-same id server f = rw (str_eq_refl id, if◌then◌else◌) refl

pub assign-other : (id server w : Str) (f : Servers) → w ≢ id → assign id server f w ≡ f w
assign-other id server w f ne = rw (str_neq_false w id ne, if◌then◌else◌) refl

pub no-err :
    {A : Type 0} (e : VolumeError) (a b : A)
    → ◌≡◌ {A = Result VolumeError (Unit {0})} (ok tt) (err e)
    → a ≡ b
no-err e a b h = cc

abbrev pub small_laws : CinderLaws small
small_laws = record {
  attached = λ s. s;
  block_storage_keeps = λ _. record { at = λ s. refl };
  compute_keeps = record { at = λ s. refl };
  get_keeps = λ _ _. record { at = λ s. refl };
  get_server_keeps = λ _. record { at = λ s. refl };
  create_keeps = λ _ _. record { at = λ s. refl };
  extend_keeps = λ _ _ _. record { at = λ s. refl };
  get_id = λ v id s volume h. ap (λ x. x.id) (sym (ok-injective _ _ h));
  get_attached = λ v id s volume h.
      ap (λ x. (attached_to v x.attachments).0) (sym (ok-injective _ _ h))
      ∙ attached_to-attachments_of v (s id);
  get_available =
      λ v id s volume h e. status_of-available (s id) (ap (λ x. x.status) (ok-injective _ _ h) ∙ e);
  attach_ok = λ server id s _. assign-same id server s;
  attach_err = λ server id s e h. no-err e _ _ h;
  attach_others = λ server id w s ne. assign-other id server w s ne;
  detach_ok = λ server id s _. assign-same id [] s;
  detach_err = λ server id s e h. no-err e _ _ h;
  detach_others = λ server id w s ne. assign-other id [] w s ne;
  delete_others = λ v id w s ne. assign-other id [] w s ne;
}
