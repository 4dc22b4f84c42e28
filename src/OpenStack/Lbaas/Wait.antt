-- ===== src/OpenStack/Lbaas/Wait.antt =====
-- openstack_loadbalancer.go: waiting for a load balancer to become active, or to be gone.
pub mod Attempts
pub mod Active
use cpo.Base.{◌==◌, Bool, true, false, Str, str, if◌then◌else◌, nat_eq, list_eq, []}
use cpo.Exec.{Result, ok, err, Exec}
use cpo.OpenStack.Lbaas.Api.{Fault, missing, timeout, failed, LoadBalancer, Backoff, Balancer}
use cpo.OpenStack.Lbaas.Calls.{Call, seen}

abbrev pub active_backoff : Backoff
active_backoff = record { duration = 1; factor = 12; steps = 19 }

abbrev pub delete_backoff : Backoff
delete_backoff = record { duration = 1; factor = 12; steps = 13 }

-- What a poll makes of the answer: the result, and the variable `provisioningStatus`.
abbrev pub judged : Bool → Bool → Result Fault Bool
judged true is_error = ok true
judged false true = err (failed (str "loadbalancer has gone into ERROR state"))
judged false false = ok false

abbrev pub judge : Str → Result Fault Bool
judge status = judged (status == str "ACTIVE") (status == str "ERROR")

abbrev pub poll_answer : Str → Result Fault LoadBalancer → Result Fault Bool × Str
poll_answer before (err e) = (err e, before)
poll_answer before (ok lb) = (judge lb.provisioning_status, lb.provisioning_status)

abbrev pub deleted_answer : Result Fault LoadBalancer → Result Fault Bool
deleted_answer (ok lb) = ok false
deleted_answer (err missing) = ok true
deleted_answer (err e) = err e

-- `if err == wait.ErrWaitTimeout`
abbrev pub timeout_as : {A : Type 0} → Str → Result Fault A → Result Fault A
timeout_as text (ok a) = ok a
timeout_as text (err timeout) = err (failed text)
timeout_as text (err e) = err e

-- The value of the caller's variable beside the error.
abbrev pub with_value : {A : Type 0} → A → Result Fault (Unit {0}) → Result Fault A
with_value a (ok _) = ok a
with_value a (err e) = err e

module _ (B : Balancer) where
  unfoldable pub poll : Str → Exec Fault (B.cloud.State × Str) Bool
  poll id (s, before) =
      let (r, s') = B.get_load_balancer id s in
      let (answer, status) = poll_answer before r in (answer, (s', status))

  -- The status, which the function also returns beside an error, is part of the callers' texts only.
  unfoldable pub wait_active : Str → Call B Str
  wait_active id s =
      let (r, l) = B.exponential_backoff active_backoff (poll id) (s, []) in
      (
        timeout_as
            (str "loadbalancer failed to go into ACTIVE provisioning status within allotted time")
            (with_value l.1 r),
        l.0,
      )

  unfoldable pub poll_deleted : Str → Exec Fault (B.cloud.State × Unit {0}) Bool
  poll_deleted id (s, u) = let (r, s') = B.get_load_balancer id s in (deleted_answer r, (s', u))

  unfoldable pub wait_deleted : Str → Call B (Unit {0})
  wait_deleted id s =
      let (r, l) = B.exponential_backoff delete_backoff (poll_deleted id) (s, tt) in
      (timeout_as (str "loadbalancer failed to delete within the allotted time") r, l.0)
