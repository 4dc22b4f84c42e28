-- ===== src/OpenStack/Volumes/Attached.antt =====
-- openstack_volumes.go: an attached volume stays with its server until it is detached from that server.
use cpo.Base.{
  ℕ, ◌≡◌, ◌≢◌, refl, sym, ap, ◌∙◌, inl, inr, Bool, true, false, not, ◌&&◌, Bool-cases, List, [],
  ◌∷◌, any, ◌==◌, Str, str, str_eq_iff, nat_eq, list_eq, if◌then◌else◌, leb,
}
use cpo.Exec.{◌>>=◌, pure, raise}
use cpo.Exec.Keeps.{bind-Keeps}
use cpo.Exec.Post.{bind-After}
use cpo.OpenStack.Volumes.{
  Call, Volume, BlockStorageOpts, failing, volume_service, get_volume, available, in_use_status,
  attached_elsewhere, attach_volume, attach_disk, detach_in_use, detach_volume, detach_disk,
  expand_available, expand_volume, create_volume, create_volume_of, disk_is_used, delete_volume,
  round_up_to_gib,
}
use cpo.OpenStack.Volumes.Api.{Version, failed, in_use, VolumeCreateOpts, Cinder}
use cpo.OpenStack.Volumes.Laws.{CinderLaws}
use cpo.OpenStack.Volumes.Operations.{
  Operation, attach, detach, expand, create, delete, detaches, apply, run,
}
use cpo.OpenStack.Volumes.Reads.{
  Still, Tells, volume_service-Keeps, get_volume-Keeps, get_volume-Post,
}
use cpo.OpenStack.Volumes.Kept.{
  not-false, attached_elsewhere-Keeps, create_volume_of-Keeps, disk_is_used-Post,
  disk_is_used-Keeps,
}

module _ (C : Cinder) (laws : CinderLaws C) (opts : BlockStorageOpts) (i v : Str)
    (set : i ≢ []) where
  Holds : C.cloud.State → Type 0
  Holds s = laws.attached s v ≡ i

  Still-Holds :
      {A : Type 0} (m : Call C A) (s : C.cloud.State) → Still C laws m → Holds s → Holds (m s).1
  unfolding Holds
  Still-Holds m s k h = ap (λ f. f v) (k.at s) ∙ h

  -- A volume without a server is another one.
  another : (id : Str) (s : C.cloud.State) → Holds s → laws.attached s id ≡ [] → v ≢ id
  unfolding Holds
  another id s h e same = set (sym h ∙ ap (laws.attached s) same ∙ e)

  read-Holds :
      {A : Type 0} (id : Str) (f : Volume → Call C A) (s : C.cloud.State)
      → Holds s
      → ((a : Volume) (s' : C.cloud.State) → Tells C laws id a s' → Holds s' → Holds (f a s').1)
      → Holds ((get_volume C opts id >>= f) s).1
  read-Holds id f s h k =
      let h' = Still-Holds (get_volume C opts id) s (get_volume-Keeps C laws opts id) h in
      bind-After (get_volume C opts id) f s Holds h'
        λ a e. k a _ (get_volume-Post C laws opts id s a e) h'

  if-Holds :
      {A : Type 0} (b : Bool) (m n : Call C A) (s : C.cloud.State)
      → (b ≡ true → Holds (m s).1)
      → (b ≡ false → Holds (n s).1)
      → Holds ((if b then m else n) s).1
  if-Holds true m n s p q = p refl
  if-Holds false m n s p q = q refl

  -- Neither call on another volume changes this one.
  attach-Holds : (j id : Str) (s : C.cloud.State) → Holds s → v ≢ id → Holds (C.attach j id s).1
  unfolding Holds
  attach-Holds j id s h ne = laws.attach_others j id v s ne ∙ h

  detach-Holds : (j id : Str) (s : C.cloud.State) → Holds s → v ≢ id → Holds (C.detach j id s).1
  unfolding Holds
  detach-Holds j id s h ne = laws.detach_others j id v s ne ∙ h

  delete-Holds :
      (w : Version) (id : Str) (s : C.cloud.State) → Holds s → v ≢ id → Holds (C.delete w id s).1
  unfolding Holds
  delete-Holds w id s h ne = laws.delete_others w id v s ne ∙ h

  -- A volume that was read without a server is another one, also after a call that keeps all attachments.
  elsewhere :
      (id : Str) (a : Volume) (s : C.cloud.State)
      → Tells C laws id a s
      → Holds (C.compute s).1
      → (a.attached_server_id == []) ≡ true
      → v ≢ a.id
  elsewhere id a s tells h e q =
      another id (C.compute s).1 h
        (ap (λ f. f id) (laws.compute_keeps.at s) ∙ sym tells.1 ∙ (str_eq_iff _ _).0 e)
        (q ∙ tells.0)

  attach_disk-Holds :
      (j id : Str) (s : C.cloud.State) → Holds s → Holds (attach_disk C opts j id s).1
  unfolding attach_disk attach_volume
  attach_disk-Holds j id s h = read-Holds id _ s h λ a s' tells h'.
      let h2 = Still-Holds C.compute s' laws.compute_keeps h' in
      bind-After C.compute _ s' Holds h2 λ u e.
        if-Holds (not (a.attached_server_id == [])) _ _ (C.compute s').1
          (λ full.
            if-Holds (j == a.attached_server_id) (pure a.id) (attached_elsewhere C a)
              (C.compute s').1 (λ _. h2)
              (λ _.
                Still-Holds (attached_elsewhere C a) _ (attached_elsewhere-Keeps C laws opts a) h2))
          (λ empty.
            let ne = elsewhere id a s' tells h2 (not-false _ empty) in
            let kept = attach-Holds j a.id (C.compute s').1 h2 ne in
            bind-After (failing (str "failed to attach") (C.attach j a.id)) _ (C.compute s').1 Holds
              kept λ _ _. kept)

  detach_in_use-Holds :
      (j id : Str) (a : Volume) (s : C.cloud.State)
      → Tells C laws id a s
      → Holds s
      → (j ≡ i → v ≢ id)
      → Holds (detach_in_use C j a s).1
  unfolding detach_in_use Holds
  detach_in_use-Holds j id a s tells h other =
      let h2 = Still-Holds C.compute s laws.compute_keeps h in
      bind-After C.compute _ s Holds h2 λ u e.
        if-Holds (not (a.attached_server_id == j)) (raise (failed (str "disk:"))) _ (C.compute s).1
          (λ _. h2)
          (λ same.
            let server = sym ((str_eq_iff _ _).0 (not-false _ same)) ∙ tells.1 in
            detach-Holds j a.id (C.compute s).1 h2
              λ q. let w = q ∙ tells.0 in other (server ∙ ap (laws.attached s) (sym w) ∙ h) w)

  detach_disk-Holds :
      (j id : Str) (s : C.cloud.State)
      → Holds s
      → (j ≡ i → v ≢ id)
      → Holds (detach_disk C opts j id s).1
  unfolding detach_disk detach_volume
  detach_disk-Holds j id s h other = read-Holds id _ s h λ a s' tells h'.
      if-Holds (a.status == available) (pure tt) _ s' (λ _. h')
        (λ _.
          if-Holds (not (a.status == in_use_status)) (raise (failed (str "can not detach volume")))
            _ s' (λ _. h') (λ _. detach_in_use-Holds j id a s' tells h' other))

  expand_volume-Holds :
      (id : Str) (size : ℕ) (s : C.cloud.State) → Holds s → Holds (expand_volume C opts id size s).1
  unfolding expand_volume expand_available
  expand_volume-Holds id size s h = read-Holds id _ s h λ a s' tells h'.
      if-Holds (not (a.status == available)) (raise (failed (str "volume status is not available")))
        _ s' (λ _. h')
        (λ _.
          if-Holds (leb (round_up_to_gib size) a.size) (pure (round_up_to_gib size)) _ s' (λ _. h')
            (λ _.
              Still-Holds _ s'
                (bind-Keeps (volume_service C opts.bs_version) _
                  (volume_service-Keeps C laws opts.bs_version)
                  λ w.
                    bind-Keeps (C.extend w id (round_up_to_gib size)) _ (laws.extend_keeps w id _)
                      λ _. record { at = λ s. refl })
                h'))

  create_volume-Holds :
      (create_opts : VolumeCreateOpts) (s : C.cloud.State)
      → Holds s
      → Holds (create_volume C opts create_opts s).1
  unfolding create_volume
  create_volume-Holds create_opts s h =
      Still-Holds _ s
        (bind-Keeps
          (failing (str "unable to initialize cinder client for region:")
            (volume_service C opts.bs_version))
          _ (record { at = (volume_service-Keeps C laws opts.bs_version).at })
          λ w.
            bind-Keeps (failing (str "failed to create a") (create_volume_of C create_opts w)) _
              (record { at = (create_volume_of-Keeps C laws opts create_opts w).at })
              λ _. record { at = λ s. refl })
        h

  delete_volume-Holds :
      (id : Str) (s : C.cloud.State) → Holds s → Holds (delete_volume C opts id s).1
  unfolding delete_volume
  delete_volume-Holds id s h =
      let h1 = Still-Holds (disk_is_used C opts id) s (disk_is_used-Keeps C laws opts id) h in
      bind-After (disk_is_used C opts id) _ s Holds h1 λ used e.
        if-Holds used (raise in_use) _ (disk_is_used C opts id s).1 (λ _. h1)
          λ unused.
            let ne = another id _ h1 (disk_is_used-Post C laws opts id s used e unused) in
            let versions =
              failing (str "unable to initialize cinder client for region:")
                (volume_service C opts.bs_version) in
            let k : Still C laws versions = record {
              at = (volume_service-Keeps C laws opts.bs_version).at;
            } in
            bind-After versions _ (disk_is_used C opts id s).1 Holds (Still-Holds versions _ k h1)
              λ w _. delete-Holds w id _ (Still-Holds versions _ k h1) ne

  apply-Holds :
      (o : Operation) (s : C.cloud.State)
      → detaches i v o ≡ false
      → Holds s
      → Holds (apply C opts o s)
  unfolding apply
  apply-Holds (attach j id) s d h = attach_disk-Holds j id s h
  apply-Holds (detach j id) s d h = detach_disk-Holds j id s h λ e same.
      let k : (j == i && id == v) ≡ true =
        rw ((str_eq_iff j i).1 e) ((str_eq_iff id v).1 (sym same)) in
      cc
  apply-Holds (expand id size) s d h = expand_volume-Holds id size s h
  apply-Holds (create create_opts) s d h = create_volume-Holds create_opts s h
  apply-Holds (delete id) s d h = delete_volume-Holds id s h

  run-Holds :
      (os : List Operation) (s : C.cloud.State)
      → any (detaches i v) os ≡ false
      → Holds s
      → Holds (run C opts os s)
  unfolding run
  run-Holds [] s d h = h
  run-Holds (o ∷ os) s d h = elim (Bool-cases (detaches i v o)) [
    | inl e ↦ (let k : true ≡ false = rw e at d in cc)
    | inr e ↦
        (let k : any (detaches i v) os ≡ false = rw e at d in
          run-Holds os _ k (apply-Holds o s e h))
  ]

  -- Where the service keeps what it promises of attachments, a volume that is attached to a server, `i`, is
  -- still attached to it after any sequence of attachments, detachments, expansions, creations and deletions,
  -- whether they end well or not, in which no call asks to detach this volume from this server.
  pub run-stays_attached :
      (os : List Operation) (s : C.cloud.State)
      → laws.attached s v ≡ i
      → any (detaches i v) os ≡ false
      → laws.attached (run C opts os s) v ≡ i
  unfolding Holds
  run-stays_attached os s h d = run-Holds os s d h
