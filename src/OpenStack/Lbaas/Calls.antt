-- ===== src/OpenStack/Lbaas/Calls.antt =====
-- How the methods of openstack_loadbalancer.go treat the error of a call, and the receiver of a
-- method: the cloud, and the options, some of which methods change.
use cpo.Base.{◌≡◌, ◌∷◌, str, Option, none, some, List, [], Str}
use cpo.Exec.{Result, ok, err, Exec}
use cpo.OpenStack.Api.{Error, not_found}
use cpo.OpenStack.Lbaas.Api.{Fault, missing, failed, known, Balancer}
use cpo.OpenStack.Lbaas.Services.{ServicePort, LbOpts}

module _ {A : Type 0} where
  -- `if err != nil { return fmt.Errorf(text, ..., err) }`
  abbrev pub wrapped : Str → Result Fault A → Result Fault A
  wrapped text (ok a) = ok a
  wrapped text (err e) = err (failed text)

  -- `if err == ErrNotFound`, with no value where nothing is found.
  abbrev pub if_found : Result Fault A → Result Fault (Option A)
  if_found (ok a) = ok (some a)
  if_found (err (known not_found)) = ok none
  if_found (err e) = err e

  -- `if err != nil && !cpoerrors.IsNotFound(err)`, with an empty list for a 404.
  abbrev pub or_empty : Result Fault (List A) → Result Fault (List A)
  or_empty (ok l) = ok l
  or_empty (err missing) = ok []
  or_empty (err e) = err e

pub wrapped-ok :
    {A : Type 0} (text : Str) (r : Result Fault A) (a : A) → wrapped text r ≡ ok a → r ≡ ok a
wrapped-ok text (ok b) a h = h
wrapped-ok text (err e) a h = cc

-- `if err != nil && !cpoerrors.IsNotFound(err)` after a call that has no value.
abbrev pub or_missing : Result Fault (Unit {0}) → Result Fault (Unit {0})
or_missing (ok _) = ok tt
or_missing (err missing) = ok tt
or_missing (err e) = err e

-- `if cpoerrors.IsNotFound(err) { return nil, ErrNotFound }`
abbrev pub as_not_found : Fault → Fault
as_not_found missing = known not_found
as_not_found e = e

-- A call of which the caller sees another result.
abbrev pub seen :
    {S A B : Type 0} → (Result Fault A → Result Fault B) → Exec Fault S A → Exec Fault S B
seen f m s = let (r, s') = m s in (f r, s')

-- A call that returns an error value of the program.
abbrev pub of_known : {A : Type 0} → Result Error A → Result Fault A
of_known (ok a) = ok a
of_known (err e) = err (known e)

abbrev pub known_errors : {S A : Type 0} → Exec Error S A → Exec Fault S A
known_errors m s = let (r, s') = m s in (of_known r, s')

-- `LbaasV2`
pub record Lbaas (B : Balancer) : Type 0 where
  pub world : B.cloud.State
  pub opts : LbOpts

module _ (B : Balancer) where
  abbrev pub Call : Type 0 → Type 0
  Call A = Exec Fault B.cloud.State A

  abbrev pub Method : Type 0 → Type 0
  Method A = Exec Fault (Lbaas B) A

  abbrev pub call : {A : Type 0} → Call A → Method A
  call m l = let (r, w) = m l.world in (r, record l { world = w })

  -- `if len(ports) == 0 { return fmt.Errorf(...) }`
  abbrev pub with_ports : {A : Type 0} → List ServicePort → Method A → Method A
  with_ports [] m l = (err (failed (str "no ports provided to openstack load balancer")), l)
  with_ports (_ ∷ _) m l = m l
