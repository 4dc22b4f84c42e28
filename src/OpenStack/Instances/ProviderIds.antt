-- ===== src/OpenStack/Instances/ProviderIds.antt =====
-- Provider ids: which texts are one, and what is found under the one of a node.
use mathlib.Core.Path.{subst, ap₂}
use cpo.Base.{
  ◌≡◌, ◌≢◌, ◌↔◌, ◌⊎◌, refl, sym, ap, ◌∙◌, ◌==◌, false, ◌||◌, none, some, [], ◌∷◌, ◌++◌,
  if◌then◌else◌, Str, str, contains, arith, Bool, true, Bool-cases, Option-cases, inl, inr,
  str_eq_iff, nat_eq, list_eq,
}
use cpo.Exec.{Result, ok, err, Exec, ok-injective, continue-eq-ok}
use cpo.OpenStack.Api.{Error, Server, Cloud}
use cpo.OpenStack.Servers.{get_server_by_name}
use cpo.OpenStack.Instances.{
  InstanceError, bad_provider_id, service, GetError, missing, failed, strip_prefix, provider_prefix,
  instance_id_from_provider_id, Details, by_name, call_by_name, instance_id, exists,
  instance_exists_by_provider_id,
}

-- The ids of servers: not empty, and without a slash.
abbrev pub IsServerId : Str → Type 0
IsServerId id = (id ≢ []) × (contains id b'/' ≡ false)

strip_prefix-append : (p s : Str) → strip_prefix p (p ++ s) ≡ some s
strip_prefix-append [] s = refl
strip_prefix-append (x ∷ p) s = ground (arith, strip_prefix-append p s, nat_eq.same_iff x x)

strip_prefix-some : (p s r : Str) → strip_prefix p s ≡ some r → s ≡ p ++ r
strip_prefix-some [] s r h = cc
strip_prefix-some (x ∷ p) [] r h = cc
strip_prefix-some (x ∷ p) (y ∷ s) r h = elim (Bool-cases (y == x)) [
  | inl e ↦
      let k : strip_prefix p s ≡ some r = rw (e, strip_prefix) at h in
      ap₂ ◌∷◌ ((nat_eq.same_iff y x).0 e) (strip_prefix-some p s r k)
  | inr e ↦ (let k : none ≡ some r = rw (e, strip_prefix) at h in cc)
]

-- A text is read as the provider id of a server exactly if it is the prefix followed by the id.
pub instance_id_from_provider_id_iff :
    (text id : Str)
    → (instance_id_from_provider_id text ≡ ok id) ↔ ((text ≡ provider_prefix ++ id) × IsServerId id)
unfolding instance_id_from_provider_id
instance_id_from_provider_id_iff text id = (read, written)
  where
    read :
        instance_id_from_provider_id text ≡ ok id → (text ≡ provider_prefix ++ id) × IsServerId id
    read h = elim (Option-cases (strip_prefix provider_prefix text)) [
      | inl e ↦
          (let k : err bad_provider_id ≡ ok id = rw (e, instance_id_from_provider_id) at h in cc)
      | inr (rest, e) ↦
          let k : (if rest == [] || contains rest b'/' then err bad_provider_id else ok rest)
              ≡ ok id =
            rw (e, instance_id_from_provider_id) at h in
          elim (Bool-cases (rest == [] || contains rest b'/')) [
            | inl f ↦ (let l : err bad_provider_id ≡ ok id = rw f at k in cc)
            | inr f ↦
                let l : ok rest ≡ ok id = rw f at k in
                let same : rest ≡ id = ok-injective rest id l in
                let shape : text ≡ provider_prefix ++ rest =
                  strip_prefix-some provider_prefix text rest e in
                let plain : contains rest b'/' ≡ false = ground arith in
                let full : rest ≢ [] = λ q. (let z = (str_eq_iff rest []).1 q in ground arith) in
                subst (λ r. (text ≡ provider_prefix ++ r) × IsServerId r) same
                  (shape, (full, plain))
          ]
    ]

    written :
        (text ≡ provider_prefix ++ id) × IsServerId id → instance_id_from_provider_id text ≡ ok id
    written (shape, (full, plain)) =
        let e : strip_prefix provider_prefix text ≡ some id =
          subst (λ t. strip_prefix provider_prefix t ≡ some id) (sym shape)
            (strip_prefix-append provider_prefix id) in
        let f : (id == [] || contains id b'/') ≡ false = ground (arith, str_eq_iff id []) in
        rw (e, instance_id_from_provider_id) (rw f refl)

-- What is said of the existence of a server, by the answer of the service.
abbrev pub Reports : Result GetError Details → Result InstanceError Bool → Type 0
Reports found said =
    ((details : Details) × (found ≡ ok details) × (said ≡ ok true))
    ⊎ (((found ≡ err missing) × (said ≡ ok false))
        ⊎ ((e : Error) × (found ≡ err (failed e)) × (said ≡ err (service e))))

module _ (C : Cloud) (get_server : Str → Exec GetError C.State Details) where
  exists-Reports : (found : Result GetError Details) → Reports found (exists C get_server found)
  exists-Reports (ok details) = inl (details, refl, refl)
  exists-Reports (err missing) = inr (inl (refl, refl))
  exists-Reports (err (failed e)) = inr (inr (e, refl, refl))

  -- Kubernetes puts the provider's name and "://" before the id that `InstanceID` returns. Under
  -- this provider id, the instance exists if the service answers with the server that was found by name;
  -- it does not exist, without an error, if the service says that this server is missing; and all other
  -- errors are passed on.
  pub instance_exists-instance_id :
      (name id : Str) (srv : Server) (s t : C.State)
      → (get_server_by_name C name s).0 ≡ ok srv
      → IsServerId srv.id
      → (instance_id C get_server name s).0 ≡ ok id
      → Reports
          (get_server srv.id t).0
          (instance_exists_by_provider_id C get_server (str "openstack://" ++ id) t).0
  unfolding instance_id instance_exists_by_provider_id
  instance_exists-instance_id name id srv s t found proper h =
      let (a, e, k) = continue-eq-ok (call_by_name C get_server name s).0 _ _ id h in
      let same : a ≡ srv = ok-injective a srv (sym e ∙ ap (by_name C get_server) found) in
      let shape : id ≡ b'/' ∷ srv.id =
        sym (ok-injective _ id k) ∙ ap (λ (x : Server). b'/' ∷ x.id) same in
      let read : instance_id_from_provider_id (str "openstack://" ++ id) ≡ ok srv.id =
        (instance_id_from_provider_id_iff _ srv.id).1
          (ap (λ i. str "openstack://" ++ i) shape, proper) in
      rw read (exists-Reports (get_server srv.id t).0)
