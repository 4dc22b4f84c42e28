-- ===== src/Csi/Controller/Again.antt =====
-- controllerserver.go: a volume is created once for a name.
use cpo.Base.{
  ◌≡◌, refl, sym, ap, ◌∙◌, inl, inr, false, Bool-cases, Option, none, List, [], ◌∷◌, map, ◌==◌, Str,
  str_eq_iff, nat_eq, list_eq, if◌then◌else◌,
}
use cpo.Exec.{Result, ok, err, Result-cases, ok-injective}
use cpo.Exec.Keeps.{Keeps}
use cpo.Csi.Api.{Services, VolumeOpts, CreateVolumeRequest, CsiVolume}
use cpo.Csi.Cloud.{listed, get_volumes_by_name}
use cpo.Csi.Controller.{
  volume_of, content_source, opts_of, choose_volume, create_named, create_volume,
}
use cpo.OpenStack.Volumes.Api.{VolumeError, CinderVolume}

-- The volumes of a name, in their order.
abbrev pub with_name : Str → List CinderVolume → List CinderVolume
with_name name [] = []
with_name name (v ∷ vs) = let rest = with_name name vs in if v.name == name then v ∷ rest else rest

with_name-here :
    (name : Str) (v : CinderVolume) (vs : List CinderVolume)
    → v.name ≡ name
    → with_name name (v ∷ vs) ≡ v ∷ with_name name vs
with_name-here name v vs h = rw ((str_eq_iff v.name name).1 h, with_name, if◌then◌else◌) refl

-- What Cinder documents of its volumes: a listing with a name has the volumes of this name, and a new volume
-- is the first one, as volumes are sorted by the time of their creation.
pub record ListingLaws (S : Services) : Type 0 where
  pub volumes : S.cinder.cloud.State → List CinderVolume
  pub list_keeps : (name : Str) → Keeps volumes (S.list name)
  pub list_named :
      (name : Str) (s : S.cinder.cloud.State) (vs : List CinderVolume)
      → (S.list name s).0 ≡ ok vs
      → vs ≡ with_name name (volumes s)
  pub created :
      (opts : VolumeOpts) (s : S.cinder.cloud.State) (v : CinderVolume)
      → (S.create opts s).0 ≡ ok v
      → (volumes (S.create opts s).1 ≡ v ∷ volumes s) × (v.name ≡ opts.name)

module _ (S : Services) (laws : ListingLaws S) (cluster : Str) where
  -- A request for a name that one volume has is answered with this volume, and creates none.
  create_named-one :
      (req : CreateVolumeRequest) (s : S.cinder.cloud.State) (vs : List CinderVolume)
      (v : CinderVolume)
      → (S.list req.name s).0 ≡ ok vs
      → with_name req.name (laws.volumes s) ≡ v ∷ []
      → ((create_named S cluster req s).0
          ≡ ok (volume_of (v.id, v.availability_zone, v.size), none))
        × (laws.volumes (create_named S cluster req s).1 ≡ laws.volumes s)
  unfolding create_named get_volumes_by_name
  create_named-one req s vs v h one =
      let e : (S.list req.name s).0 ≡ ok (v ∷ []) =
        h ∙ ap ok (laws.list_named req.name s vs h ∙ one) in
      rw e (refl, (laws.list_keeps req.name).at s)

  -- After a request that is answered with a volume, this volume is the only one of its name.
  choose-one :
      (req : CreateVolumeRequest) (s : S.cinder.cloud.State) (vs : List CinderVolume)
      (a : CsiVolume × Option Str)
      → with_name req.name (laws.volumes s) ≡ vs
      → (choose_volume S cluster req (map listed vs) s).0 ≡ ok a
      → (v : CinderVolume) × (with_name req.name
            (laws.volumes (choose_volume S cluster req (map listed vs) s).1)
          ≡ v ∷ [])
        × (a.0 ≡ volume_of (v.id, v.availability_zone, v.size))
  choose-one req s [] a h run = elim (Result-cases (S.create (opts_of cluster req) s).0) [
    | inl (e, k) ↦ (let r : ◌≡◌ {A = Result VolumeError _} (err e) (ok a) = rw k at run in cc)
    | inr (v, k) ↦
        let (all, name) = laws.created (opts_of cluster req) s v k in
        let r : ◌≡◌ {A = Result VolumeError _}
            (ok (volume_of (v.id, v.availability_zone, v.size), content_source _)) (ok a) =
          rw k at run in
        (
          v,
          rw k (rw all (with_name-here req.name v _ name ∙ ap (λ l. v ∷ l) h)),
          ap (λ x. x.0) (sym (ok-injective _ _ r)),
        )
  ]
  choose-one req s (v ∷ []) a h run = (v, h, ap (λ x. x.0) (sym (ok-injective _ _ run)))
  choose-one req s (v ∷ w ∷ vs) a h run = cc

  create_named-one_left :
      (req : CreateVolumeRequest) (s : S.cinder.cloud.State) (vs : List CinderVolume)
      (a : CsiVolume × Option Str)
      → (S.list req.name s).0 ≡ ok vs
      → (create_named S cluster req s).0 ≡ ok a
      → (v : CinderVolume) × (with_name req.name (laws.volumes (create_named S cluster req s).1)
          ≡ v ∷ [])
        × (a.0 ≡ volume_of (v.id, v.availability_zone, v.size))
  unfolding create_named get_volumes_by_name
  create_named-one_left req s vs a h run =
      let e : with_name req.name (laws.volumes (S.list req.name s).1) ≡ vs =
        ap (with_name req.name) ((laws.list_keeps req.name).at s)
        ∙ sym (laws.list_named req.name s vs h) in
      rw h (choose-one req (S.list req.name s).1 vs a e (rw h at run))

  create_volume-has_name :
      (req : CreateVolumeRequest) (s : S.cinder.cloud.State) (a : CsiVolume × Option Str)
      → (create_volume S cluster req s).0 ≡ ok a
      → (req.name == []) ≡ false
  unfolding create_volume
  create_volume-has_name req s a h = elim (Bool-cases (req.name == [])) [
    | inl e ↦
        (let k : ◌≡◌ {A = Result VolumeError (CsiVolume × Option Str)} (err _) (ok a) = rw e at h in
          cc)
    | inr e ↦ e
  ]

  create_volume-create_named :
      (req : CreateVolumeRequest) (s : S.cinder.cloud.State)
      → (req.name == []) ≡ false
      → create_volume S cluster req s ≡ create_named S cluster req s
  unfolding create_volume
  create_volume-create_named req s e = rw (e, if◌then◌else◌) refl

  -- Where the service keeps what it promises of listings and creations: if a request is answered with a volume
  -- and its listing was read, then a request with this name that is made when the volumes of this name are still
  -- those that it left, and whose listing can be read, is answered with the same identifier, capacity and
  -- topology, whatever size, type, zone and source it asks for, without a source of contents, and creates no
  -- volume.
  pub create_volume-again :
      (req later : CreateVolumeRequest) (s t : S.cinder.cloud.State) (vs ws : List CinderVolume)
      (a : CsiVolume × Option Str)
      → (S.list req.name s).0 ≡ ok vs
      → (create_volume S cluster req s).0 ≡ ok a
      → later.name ≡ req.name
      → with_name req.name (laws.volumes t)
        ≡ with_name req.name (laws.volumes (create_volume S cluster req s).1)
      → (S.list later.name t).0 ≡ ok ws
      → ((create_volume S cluster later t).0 ≡ ok (a.0, none))
        × (laws.volumes (create_volume S cluster later t).1 ≡ laws.volumes t)
  create_volume-again req later s t vs ws a h run same still again =
      let named = create_volume-has_name req s a run in
      let first = create_volume-create_named req s named in
      let (v, one, e) = create_named-one_left req s vs a h (ap (λ x. x.0) (sym first) ∙ run) in
      let later_one : with_name later.name (laws.volumes t) ≡ v ∷ [] =
        ap (λ n. with_name n (laws.volumes t)) same
        ∙ still
        ∙ ap (λ x. with_name req.name (laws.volumes x.1)) first
        ∙ one in
      let (answer, kept) = create_named-one later t ws v again later_one in
      let second = create_volume-create_named later t (ap (λ n. n == []) same ∙ named) in
      (
        ap (λ x. x.0) second ∙ answer ∙ ap (λ x. ok (x, none)) (sym e),
        ap (λ x. laws.volumes x.1) second ∙ kept,
      )
