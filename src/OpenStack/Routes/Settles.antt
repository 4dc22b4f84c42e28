-- ===== src/OpenStack/Routes/Settles.antt =====
-- The bodies that run after the routes were updated: they leave the routes alone, and whether they
-- return an error decides whether the unwinder is still armed.
use cpo.Base.{◌≡◌, refl, ◌∙◌, Bool, true, false, List, inl, inr, Bool-cases}
use cpo.Exec.{Result, ok, err, Exec, continue, ◌>>=◌}
use cpo.Exec.Keeps.{Keeps}
use cpo.OpenStack.Api.{Error, Route, Cloud}
use cpo.OpenStack.Routes.Unwind.{Frame, Body, call, disarm, unwound, deferred}

module _ (C : Cloud) (obs : C.State → List Route) where
  -- How a body may end: well and disarmed, or with an error and as armed as it began.
  abbrev pub Ends : Bool → Result Error (Unit {0}) → Bool → Type 0
  Ends before (ok _) after = after ≡ false
  Ends before (err _) after = after ≡ before

  pub record Settles (m : Body C (Unit {0})) : Type 0 where
    pub keeps : (f : Frame C) → obs (m f).1.world ≡ obs f.world
    pub ends : (f : Frame C) → Ends f.armed (m f).0 (m f).1.armed

  pub disarm-Settles : Settles (disarm C)
  disarm-Settles = record { keeps = λ f. refl; ends = λ f. refl }

  module _ {A : Type 0} (m : Exec Error C.State A) (k : A → Body C (Unit {0})) where
    -- The rest settles for every value that the call can return.
    abbrev pub RestSettles : Type 0
    RestSettles = (a : A) (s : C.State) → (m s).0 ≡ ok a → Settles (k a)

    continue-keeps :
        (s : C.State) (r : Result Error A) (f : Frame C)
        → (m s).0 ≡ r
        → RestSettles
        → obs (continue r k f).1.world ≡ obs f.world
    continue-keeps s (ok a) f e h = (h a s e).keeps f
    continue-keeps s (err _) f e h = refl

    continue-Ends :
        (s : C.State) (r : Result Error A) (f : Frame C)
        → (m s).0 ≡ r
        → RestSettles
        → Ends f.armed (continue r k f).0 (continue r k f).1.armed
    continue-Ends s (ok a) f e h = (h a s e).ends f
    continue-Ends s (err _) f e h = refl

    -- A call that leaves the routes alone, before a body that settles.
    pub call-Settles : Keeps obs m → RestSettles → Settles (call C m >>= k)
    call-Settles km kk = record {
      keeps = λ f. continue-keeps f.world (m f.world).0 _ refl kk ∙ km.at f.world;
      ends = λ f. continue-Ends f.world (m f.world).0 (record f { world = (m f.world).1 }) refl kk;
    }

  unwound_world :
      (unwind : C.State → C.State) (f : Frame C)
      → ((s : C.State) → obs (unwind s) ≡ obs s)
      → obs (unwound C unwind f).world ≡ obs f.world
  unwound_world unwind f u = elim (Bool-cases f.armed) [ inl e ↦ rw e (u f.world) | inr e ↦ rw e ]

  -- An unwinder that leaves the routes alone, deferred before a body that settles.
  pub deferred-Settles :
      (unwind : C.State → C.State) (m : Body C (Unit {0}))
      → ((s : C.State) → obs (unwind s) ≡ obs s)
      → Settles m
      → Settles (deferred C unwind m)
  deferred-Settles unwind m u h = record {
    keeps = λ f. unwound_world unwind (m f).1 u ∙ h.keeps f;
    ends = λ f. h.ends f;
  }

  -- What an armed unwinder does: nothing where the rest ended well, and where it failed it is the
  -- last to change the state, in which the routes are what they were before the rest.
  abbrev pub Unwinds : (C.State → C.State) → C.State → Result Error (Unit {0}) → C.State → Type 0
  Unwinds unwind before (ok _) after = obs after ≡ obs before
  Unwinds unwind before (err _) after = (w : C.State) × (obs w ≡ obs before) × (after ≡ unwind w)

  pub deferred-Unwinds :
      (unwind : C.State → C.State) (m : Body C (Unit {0})) (s : C.State)
      → Settles m
      → let (r, f) = deferred C unwind m (record { armed = true; world = s }) in
        Unwinds unwind s r f.world
  deferred-Unwinds unwind m s h = by_end (m start).0 refl
    where
      start : Frame C
      start = record { armed = true; world = s }

      by_end :
          (r : Result Error (Unit {0}))
          → (m start).0 ≡ r
          → Unwinds unwind s (m start).0 (unwound C unwind (m start).1).world
      by_end (ok u) e =
          let a : (m start).1.armed ≡ false = rw (e, Ends) at (h.ends start) in
          rw (e, Unwinds) (rw a (h.keeps start))
      by_end (err x) e =
          let a : (m start).1.armed ≡ true = rw (e, Ends) at (h.ends start) in
          rw (e, Unwinds) ((m start).1.world, h.keeps start, rw a refl)
