-- ===== src/OpenStack/Routes/Unwind.antt =====
-- The conditional unwind of openstack.go (`caller`) and the two updates of openstack_routes.go that
-- hand back an unwinder.
use cpo.Base.{Bool, true, false, List, if◌then◌else◌}
use cpo.Exec.{ok, err, Exec}
use cpo.OpenStack.Api.{Error, Route, Router, Port, AddressPair, Cloud}

-- A function body runs with its local `onFailure` and the state of the services.
pub record Frame (C : Cloud) : Type 0 where
  pub armed : Bool
  pub world : C.State

module _ (C : Cloud) where
  abbrev pub Body : Type 0 → Type 0
  Body A = Exec Error (Frame C) A

  -- A call of a service.
  abbrev pub call : {A : Type 0} → Exec Error C.State A → Body A
  call m f = let (r, s) = m f.world in (r, record f { world = s })

  -- `onFailure.disarm()`
  abbrev pub disarm : Body (Unit {0})
  disarm f = (ok tt, record f { armed = false })

  -- `defer onFailure.call(unwind)` before the rest of the body: when the rest has returned, the
  -- unwinder runs unless it was disarmed.
  abbrev pub unwound : (C.State → C.State) → Frame C → Frame C
  unwound unwind f = record f { world = if f.armed then unwind f.world else f.world }

  abbrev pub deferred : {A : Type 0} → (C.State → C.State) → Body A → Body A
  deferred unwind rest f = let (r, f') = rest f in (r, unwound unwind f')

  -- A function with `onFailure := newCaller()` in its body.
  abbrev pub with_caller : {A : Type 0} → Body A → Exec Error C.State A
  with_caller body s = let (r, f) = body (record { armed = true; world = s }) in (r, f.world)

  -- `updateRoutes`: the unwinder sends the routes that `router` holds. Its own error is only logged.
  unfoldable pub update_routes : Router → List Route → Exec Error C.State (C.State → C.State)
  update_routes router new_routes s =
      let (r, s') = C.update_router router.id new_routes s in
      (
        elim r [ err e ↦ err e | ok _ ↦ ok (λ t. (C.update_router router.id router.routes t).1) ],
        s',
      )

  -- `updateAllowedAddressPairs`
  unfoldable pub update_allowed_address_pairs :
      Port → List AddressPair → Exec Error C.State (C.State → C.State)
  update_allowed_address_pairs port new_pairs s =
      let (r, s') = C.update_port port.id new_pairs s in
      (
        elim r [
          | err e ↦ err e
          | ok _ ↦ ok (λ t. (C.update_port port.id port.allowed_address_pairs t).1)
        ],
        s',
      )
