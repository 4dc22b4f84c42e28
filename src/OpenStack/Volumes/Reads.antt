-- ===== src/OpenStack/Volumes/Reads.antt =====
-- openstack_volumes.go: reading a volume leaves all attachments, and tells the server of the volume.
use cpo.Base.{
  ◌≡◌, refl, sym, ap, ◌∙◌, inl, inr, Bool, true, false, List, [], ◌∷◌, ◌==◌, Str, str, nat_eq,
  list_eq, if◌then◌else◌,
}
use cpo.Exec.{Result, ok, err, ◌>>=◌, pure, Result-cases}
use cpo.Exec.Keeps.{Keeps, bind-Keeps}
use cpo.Exec.Post.{Post, bind-Post, pure-Post}
use cpo.OpenStack.Volumes.{
  Call, Volume, BlockStorageOpts, or_fail, failing, to_volume, first_version, volume_service,
  get_volume_of, get_volume, available,
}
use cpo.OpenStack.Volumes.Api.{Version, v1, v2, v3, VolumeError, Cinder}
use cpo.OpenStack.Volumes.Laws.{CinderLaws}

or_fail-ok :
    {A : Type 0} (text : Str) (r : Result VolumeError A) (a : A) → or_fail text r ≡ ok a → r ≡ ok a
or_fail-ok text (ok b) a h = h
or_fail-ok text (err e) a h = cc

module _ (C : Cinder) (laws : CinderLaws C) where
  abbrev pub Still : {A : Type 0} → Call C A → Type 0
  Still m = Keeps laws.attached m

  first_version-keeps :
      (vs : List Version) (s : C.cloud.State)
      → laws.attached (first_version C vs s).1 ≡ laws.attached s
  unfolding first_version
  first_version-keeps [] s = refl
  first_version-keeps (v ∷ vs) s = elim (Result-cases (C.block_storage v s).0) [
    | inl (e, h) ↦
        rw (h, first_version) (first_version-keeps vs _ ∙ (laws.block_storage_keeps v).at s)
    | inr (u, h) ↦ rw (h, first_version) ((laws.block_storage_keeps v).at s)
  ]

  with_version-Keeps : (v : Version) → Still (C.block_storage v >>= λ _. pure v)
  with_version-Keeps v =
      bind-Keeps (C.block_storage v) _ (laws.block_storage_keeps v) λ _. record { at = λ s. refl }

  abbrev pub KeptIf : {A : Type 0} → Bool → Call C A → Call C A → Type 0
  KeptIf b m n = Still (if b then m else n)

  pub if-Keeps : {A : Type 0} (b : Bool) (m n : Call C A) → Still m → Still n → KeptIf b m n
  if-Keeps true m n p q = p
  if-Keeps false m n p q = q

  pub volume_service-Keeps : (bs_version : Str) → Still (volume_service C bs_version)
  unfolding volume_service
  volume_service-Keeps bs_version = if-Keeps (bs_version == str "v1") _ _ (with_version-Keeps v1) (
      if-Keeps (bs_version == str "v2") _ _ (with_version-Keeps v2) (
        if-Keeps (bs_version == str "v3") _ _ (with_version-Keeps v3) (
          if-Keeps (bs_version == str "auto") _ _
            (record { at = first_version-keeps (v3 ∷ v2 ∷ v1 ∷ []) }) (record { at = λ s. refl }))))

  pub get_volume-Keeps : (opts : BlockStorageOpts) (id : Str) → Still (get_volume C opts id)
  unfolding get_volume get_volume_of
  get_volume-Keeps opts id =
      bind-Keeps
        (failing (str "unable to initialize cinder client for region:")
          (volume_service C opts.bs_version))
        _ (record { at = (volume_service-Keeps opts.bs_version).at })
        λ v.
          bind-Keeps (failing (str "error occurred getting volume by ID:") (C.get v id)) _
            (record { at = (laws.get_keeps v id).at }) λ _. record { at = λ s. refl }

  -- What a volume that was just read says of the state.
  abbrev pub Tells : Str → Volume → C.cloud.State → Type 0
  Tells id volume s =
      (volume.id ≡ id)
      × (volume.attached_server_id ≡ laws.attached s id)
      × (volume.status ≡ available → laws.attached s id ≡ [])

  get_volume_of-Post :
      (id : Str) (v : Version) (s : C.cloud.State) → Post (get_volume_of C id v) s (Tells id)
  unfolding get_volume_of
  get_volume_of-Post id v s =
      bind-Post (failing (str "error occurred getting volume by ID:") (C.get v id)) _ s (Tells id)
        λ volume h.
          let g = or_fail-ok _ _ _ h in
          let same : (k : Str) → laws.attached s k ≡ laws.attached (C.get v id s).1 k =
            λ k. ap (λ f. f k) (sym ((laws.get_keeps v id).at s)) in
          pure-Post (to_volume v volume) (C.get v id s).1 (Tells id) (
            laws.get_id v id s volume g,
            laws.get_attached v id s volume g ∙ same id,
            λ e. sym (same id) ∙ laws.get_available v id s volume g e,
          )

  pub get_volume-Post :
      (opts : BlockStorageOpts) (id : Str) (s : C.cloud.State)
      → Post (get_volume C opts id) s (Tells id)
  unfolding get_volume
  get_volume-Post opts id s =
      bind-Post
        (failing (str "unable to initialize cinder client for region:")
          (volume_service C opts.bs_version))
        _ s (Tells id) λ v h. get_volume_of-Post id v _
