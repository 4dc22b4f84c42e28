-- ===== src/OpenStack/Routes/PairUpdates.antt =====
-- The update of a port's address pairs, with its unwinder, leaves the routes alone.
use cpo.Base.{◌≡◌, refl, sym, List, Str}
use cpo.Exec.{ok-injective, Result, ok, err, ◌>>=◌}
use cpo.Exec.Keeps.{Keeps}
use cpo.OpenStack.Api.{Error, Route, Port, AddressPair, Cloud}
use cpo.OpenStack.Routes.Unwind.{call, disarm, deferred, update_allowed_address_pairs}
use cpo.OpenStack.Routes.Laws.{Neutron}
use cpo.OpenStack.Routes.Settles.{Settles, disarm-Settles, call-Settles, deferred-Settles}

module _ (C : Cloud) (routes : Str → C.State → List Route) (laws : Neutron C routes)
    (id : Str) where
  update_port-Keeps :
      (port : Port) (ps : List AddressPair)
      → Keeps (routes id) (update_allowed_address_pairs C port ps)
  unfolding update_allowed_address_pairs
  update_port-Keeps port ps = record { at = λ s. laws.update_port_keeps port.id ps s id }

  -- The unwinder of a port's update sends the pairs that the port had.
  pairs_unwinder :
      (port : Port) (ps : List AddressPair) (unwind : C.State → C.State) (s : C.State)
      → (update_allowed_address_pairs C port ps s).0 ≡ ok unwind
      → unwind ≡ (λ t. (C.update_port port.id port.allowed_address_pairs t).1)
  unfolding update_allowed_address_pairs
  pairs_unwinder port ps unwind s e = by_answer (C.update_port port.id ps s).0 refl
    where
      by_answer :
          (r : Result Error (Unit {0}))
          → (C.update_port port.id ps s).0 ≡ r
          → unwind ≡ (λ t. (C.update_port port.id port.allowed_address_pairs t).1)
      by_answer (err x) q = let f : err x ≡ ok unwind = rw q at e in cc
      by_answer (ok u) q =
          let f : ok (λ t. (C.update_port port.id port.allowed_address_pairs t).1) ≡ ok unwind =
            rw q at e in
          sym (ok-injective _ unwind f)

  pub update_pairs-Settles :
      (port : Port) (ps : List AddressPair)
      → Settles C (routes id) (
          call C (update_allowed_address_pairs C port ps) >>= λ unwind.
          deferred C unwind (disarm C))
  update_pairs-Settles port ps =
      call-Settles C (routes id) _ _ (update_port-Keeps port ps) λ unwind s e.
        deferred-Settles C (routes id) unwind (disarm C)
          (λ t. rw (pairs_unwinder port ps unwind s e) (laws.update_port_keeps port.id _ t id))
          (disarm-Settles C (routes id))
