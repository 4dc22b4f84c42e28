-- ===== src/OpenStack/Volumes/Kept.antt =====
-- openstack_volumes.go: calls that leave all attachments, and what they tell of them.
use cpo.Base.{
  ◌≡◌, refl, sym, ◌∙◌, Bool, true, false, not, [], ◌==◌, Str, str_eq_iff, nat_eq, list_eq,
}
use cpo.Exec.Keeps.{bind-Keeps}
use cpo.Exec.Post.{Post, bind-Post, pure-Post}
use cpo.OpenStack.Volumes.{
  Volume, BlockStorageOpts, get_volume, get_node_name_by_id, attached_elsewhere, create_volume_of,
  disk_is_used,
}
use cpo.OpenStack.Volumes.Api.{Version, VolumeCreateOpts, Cinder}
use cpo.OpenStack.Volumes.Laws.{CinderLaws}
use cpo.OpenStack.Volumes.Reads.{Still, get_volume-Keeps, get_volume-Post}

pub not-false : (b : Bool) → not b ≡ false → b ≡ true
not-false true h = refl
not-false false h = cc

module _ (C : Cinder) (laws : CinderLaws C) (opts : BlockStorageOpts) where
  pub attached_elsewhere-Keeps : (volume : Volume) → Still C laws (attached_elsewhere C volume)
  unfolding attached_elsewhere get_node_name_by_id
  attached_elsewhere-Keeps volume = record {
    at =
        (bind-Keeps C.compute _ laws.compute_keeps λ _.
          bind-Keeps (C.get_server volume.attached_server_id) _ (laws.get_server_keeps _)
            λ _. record { at = λ s. refl }).at;
  }

  pub create_volume_of-Keeps :
      (create_opts : VolumeCreateOpts) (w : Version)
      → Still C laws (create_volume_of C create_opts w)
  create_volume_of-Keeps create_opts w =
      bind-Keeps (C.create w create_opts) _ (laws.create_keeps w create_opts)
        λ _. record { at = λ s. refl }

  -- A volume that is not used has no server.
  pub disk_is_used-Post :
      (id : Str) (s : C.cloud.State)
      → Post (disk_is_used C opts id) s (λ used s'. used ≡ false → laws.attached s' id ≡ [])
  unfolding disk_is_used
  disk_is_used-Post id s =
      bind-Post (get_volume C opts id) _ s (λ used s'. used ≡ false → laws.attached s' id ≡ [])
        λ a e.
          pure-Post (not (a.attached_server_id == [])) _
            (λ used s'. used ≡ false → laws.attached s' id ≡ [])
            λ u. sym (get_volume-Post C laws opts id s a e).1 ∙ (str_eq_iff _ _).0 (not-false _ u)

  pub disk_is_used-Keeps : (id : Str) → Still C laws (disk_is_used C opts id)
  unfolding disk_is_used
  disk_is_used-Keeps id =
      bind-Keeps (get_volume C opts id) _ (get_volume-Keeps C laws opts id)
        λ _. record { at = λ s. refl }
