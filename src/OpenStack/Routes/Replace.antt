-- ===== src/OpenStack/Routes/Replace.antt =====
-- The update of the routes with its deferred unwinder: the router ends with the new routes, or with
-- those that the unwinder sends back.
use cpo.Base.{◌≡◌, refl, sym, ◌∙◌, ap, ◌⊎◌, inl, inr, true, List, Str}
use cpo.Exec.{ok-injective, Result, ok, err, continue, ◌>>=◌, pure}
use cpo.OpenStack.Api.{Error, Route, Router, Cloud}
use cpo.OpenStack.Routes.Unwind.{Frame, Body, call, deferred, update_routes}
use cpo.OpenStack.Routes.Laws.{Neutron}
use cpo.OpenStack.Routes.Settles.{Settles, Unwinds, deferred-Unwinds}

-- The last call asked to set the routes `rs`, and was refused.
abbrev pub Refused : (C : Cloud) → Str → List Route → C.State → Type 0
Refused C id rs after =
    (t : C.State) × (e : Error) × ((C.update_router id rs t).0 ≡ err e)
    × (after ≡ (C.update_router id rs t).1)

-- The routes of the router after a replacement, `backup` being what the unwinder sends.
abbrev pub Replaced :
    (C : Cloud) (routes : Str → C.State → List Route)
    → Str
    → List Route
    → List Route
    → List Route
    → Result Error (Unit {0})
    → C.State
    → Type 0
Replaced C routes id old backup new (ok _) after = routes id after ≡ new
Replaced C routes id old backup new (err _) after =
    (routes id after ≡ old)
    ⊎ ((routes id after ≡ backup) ⊎ ((routes id after ≡ new) × Refused C id backup after))

-- The routes of the router after a plain update.
abbrev pub Updated :
    (C : Cloud) (routes : Str → C.State → List Route)
    → Str
    → List Route
    → List Route
    → Result Error (Unit {0})
    → C.State
    → Type 0
Updated C routes id old new (ok _) after = routes id after ≡ new
Updated C routes id old new (err _) after = routes id after ≡ old

module _ (C : Cloud) (routes : Str → C.State → List Route) (laws : Neutron C routes) where
  -- The unwinder sends the routes that `router` holds.
  routes_unwinder :
      (router : Router) (rs : List Route) (unwind : C.State → C.State) (s : C.State)
      → (update_routes C router rs s).0 ≡ ok unwind
      → ((C.update_router router.id rs s).0 ≡ ok tt)
        × (unwind ≡ (λ t. (C.update_router router.id router.routes t).1))
  unfolding update_routes
  routes_unwinder router rs unwind s e = by_answer (C.update_router router.id rs s).0 refl
    where
      by_answer :
          (r : Result Error (Unit {0}))
          → (C.update_router router.id rs s).0 ≡ r
          → ((C.update_router router.id rs s).0 ≡ ok tt)
            × (unwind ≡ (λ t. (C.update_router router.id router.routes t).1))
      by_answer (err x) q = let f : err x ≡ ok unwind = rw q at e in cc
      by_answer (ok u) q =
          let f : ok (λ t. (C.update_router router.id router.routes t).1) ≡ ok unwind = rw q at e in
          (q, sym (ok-injective _ unwind f))

  routes_refused :
      (router : Router) (rs : List Route) (s : C.State) (x : Error)
      → (update_routes C router rs s).0 ≡ err x
      → (C.update_router router.id rs s).0 ≡ err x
  unfolding update_routes
  routes_refused router rs s x e = by_answer (C.update_router router.id rs s).0 refl
    where
      by_answer :
          (r : Result Error (Unit {0}))
          → (C.update_router router.id rs s).0 ≡ r
          → (C.update_router router.id rs s).0 ≡ err x
      by_answer (err y) q = let f : err y ≡ err x = rw q at e in q ∙ cc
      by_answer (ok u) q = let f : ok _ ≡ err x = rw q at e in cc

  update_world :
      (router : Router) (rs : List Route) (s : C.State)
      → (update_routes C router rs s).1 ≡ (C.update_router router.id rs s).1
  unfolding update_routes
  update_world router rs s = refl

  resend :
      (id : Str) (backup new : List Route) (w after : C.State)
      → routes id w ≡ new
      → after ≡ (C.update_router id backup w).1
      → (routes id after ≡ backup) ⊎ ((routes id after ≡ new) × Refused C id backup after)
  resend id backup new w after set e = by_answer (C.update_router id backup w).0 refl
    where
      by_answer :
          (r : Result Error (Unit {0}))
          → (C.update_router id backup w).0 ≡ r
          → (routes id after ≡ backup) ⊎ ((routes id after ≡ new) × Refused C id backup after)
      by_answer (ok u) q = inl (ap (routes id) e ∙ laws.update_router_sets id backup w q)
      by_answer (err x) q =
          inr (ap (routes id) e ∙ laws.update_router_refused id backup w x q ∙ set, (w, x, q, e))

  from_Unwinds :
      (id : Str) (old backup new : List Route) (unwind : C.State → C.State) (before : C.State)
      → unwind ≡ (λ t. (C.update_router id backup t).1)
      → routes id before ≡ new
      → (r : Result Error (Unit {0})) (after : C.State)
      → Unwinds C (routes id) unwind before r after
      → Replaced C routes id old backup new r after
  from_Unwinds id old backup new unwind before u b (ok _) after h = h ∙ b
  from_Unwinds id old backup new unwind before u b (err _) after (w, same, e) =
      inr (resend id backup new w after (same ∙ b) (e ∙ ap (λ (g : C.State → C.State). g w) u))

  pub replace-Replaced :
      (router : Router) (new : List Route) (rest : Body C (Unit {0})) (s : C.State)
      → Settles C (routes router.id) rest
      → let (r, f) =
          (call C (update_routes C router new) >>= λ unwind. deferred C unwind rest)
            (record { armed = true; world = s }) in
        Replaced C routes router.id (routes router.id s) router.routes new r f.world
  replace-Replaced router new rest s h = by_update (update_routes C router new s).0 refl
    where
      after : C.State
      after = (update_routes C router new s).1

      by_update :
          (u : Result Error (C.State → C.State))
          → (update_routes C router new s).0 ≡ u
          → let (r, f) =
              continue u
                (λ unwind. deferred C unwind rest)
                (record { armed = true; world = after }) in
            Replaced C routes router.id (routes router.id s) router.routes new r f.world
      by_update (err x) e = inl (
          ap (routes router.id) (update_world router new s)
          ∙ laws.update_router_refused router.id new s x (routes_refused router new s x e))
      by_update (ok unwind) e =
          let (set, u) = routes_unwinder router new unwind s e in
          from_Unwinds router.id (routes router.id s) router.routes new unwind after u
            (ap (routes router.id) (update_world router new s)
              ∙ laws.update_router_sets router.id new s set)
            _ _ (deferred-Unwinds C (routes router.id) unwind rest after h)

  -- Without an unwinder an error leaves the routes as they were.
  pub update-Replaced :
      (router : Router) (new : List Route) (s : C.State)
      → let (r, f) =
          (call C (update_routes C router new) >>= λ unwind. pure tt)
            (record { armed = true; world = s }) in
        Updated C routes router.id (routes router.id s) new r f.world
  update-Replaced router new s = by_update (update_routes C router new s).0 refl
    where
      by_update :
          (u : Result Error (C.State → C.State))
          → (update_routes C router new s).0 ≡ u
          → let (r, f) =
              continue {S = Frame C} u
                (λ unwind. pure tt)
                (record { armed = true; world = (update_routes C router new s).1 }) in
            Updated C routes router.id (routes router.id s) new r f.world
      by_update (err x) e =
          ap (routes router.id) (update_world router new s)
          ∙ laws.update_router_refused router.id new s x (routes_refused router new s x e)
      by_update (ok unwind) e =
          ap (routes router.id) (update_world router new s)
          ∙ laws.update_router_sets router.id new s (routes_unwinder router new unwind s e).0
