-- ===== src/OpenStack/Lbaas/Wait/Active.antt =====
-- When the waits of openstack_loadbalancer.go end well, and how often they ask.
use cpo.Base.{
  ℕ, ◌<◌, ◌≤◌, ◌+◌, ◌≡◌, refl, sym, ap, ◌∙◌, ◌↔◌, ◌≢◌, Bool, true, false, [], Str, str, str_eq_iff,
  str_neq, str_neq_false, nat_eq, list_eq,
}
use cpo.Exec.{Result, ok, err, Exec, ok-injective}
use cpo.OpenStack.Lbaas.Api.{Fault, timeout, LoadBalancer, Backoff, Balancer}
use cpo.OpenStack.Lbaas.Wait.{
  active_backoff, delete_backoff, judge, judged, judge, poll_answer, timeout_as, with_value, poll,
  wait_active, poll_deleted, wait_deleted,
}
use cpo.OpenStack.Lbaas.Wait.Attempts.{attempts, reached, attempts-met, met-attempts, attempts-le}

-- What the wait package documents, with the time that passes in a pause; a caller's variables stay.
pub record BackoffLaws (B : Balancer) : Type 1 where
  pub pause : Backoff → ℕ → B.cloud.State → B.cloud.State
  pub attempts_made :
      {L : Type 0} (b : Backoff) (m : Exec Fault (B.cloud.State × L) Bool) (p : B.cloud.State × L)
      → B.exponential_backoff b m p
        ≡ attempts (λ n (q : B.cloud.State × L). (pause b n q.0, q.1)) m b.steps p

pub timeout_as-ok :
    {A : Type 0} (text : Str) (r : Result Fault A) (a : A) → timeout_as text r ≡ ok a → r ≡ ok a
timeout_as-ok text (ok b) a h = h
timeout_as-ok text (err timeout) a h = cc
timeout_as-ok text (err _) a h = cc

with_value-ok :
    {A : Type 0} (a b : A) (r : Result Fault (Unit {0}))
    → with_value a r ≡ ok b
    → (r ≡ ok tt) × (a ≡ b)
with_value-ok a b (ok _) h = (refl, ok-injective a b h)
with_value-ok a b (err _) h = cc

-- The load balancer is seen active; it is seen in a state that is neither that nor an error.
abbrev pub IsActive : Result Fault LoadBalancer → Type 0
IsActive r = (lb : LoadBalancer) × (r ≡ ok lb) × (lb.provisioning_status ≡ str "ACTIVE")

abbrev pub IsPending : Result Fault LoadBalancer → Type 0
IsPending r =
    (lb : LoadBalancer) × (r ≡ ok lb)
    × (lb.provisioning_status ≢ str "ACTIVE")
    × (lb.provisioning_status ≢ str "ERROR")

judged-true : (b c : Bool) → judged b c ≡ ok true → b ≡ true
judged-true true c h = refl
judged-true false true h = cc
judged-true false false h = cc

judged-false : (b c : Bool) → judged b c ≡ ok false → (b ≡ false) × (c ≡ false)
judged-false true c h = cc
judged-false false true h = cc
judged-false false false h = (refl, refl)

active :
    (before : Str) (r : Result Fault LoadBalancer) → (poll_answer before r).0 ≡ ok true → IsActive r
active before (ok lb) h = (lb, refl, (str_eq_iff _ _).0 (judged-true _ _ h))
active before (err e) h = cc

pending :
    (before : Str) (r : Result Fault LoadBalancer)
    → (poll_answer before r).0 ≡ ok false
    → IsPending r
pending before (ok lb) h =
    let (a, e) = judged-false _ _ h in (lb, refl, str_neq _ _ a, str_neq _ _ e)
pending before (err e) h = cc

active-answer :
    (before : Str) (r : Result Fault LoadBalancer)
    → IsActive r
    → poll_answer before r ≡ (ok true, str "ACTIVE")
active-answer before r (lb, e, a) = rw (e, poll_answer) (ap (λ s. (judge s, s)) a)

pending-answer :
    (before : Str) (r : Result Fault LoadBalancer)
    → IsPending r
    → (poll_answer before r).0 ≡ ok false
pending-answer before r (lb, e, a, b) =
    rw (e, poll_answer) (rw (str_neq_false _ _ a, judged) (rw (str_neq_false _ _ b, judged) refl))

module _ (B : Balancer) (laws : BackoffLaws B) (id : Str) where
  abbrev pausing : {L : Type 0} → Backoff → ℕ → B.cloud.State × L → B.cloud.State × L
  pausing b n q = (laws.pause b n q.0, q.1)

  -- What the service answers to poll number `k` of a wait that begins in a state.
  abbrev pub answer : ℕ → B.cloud.State → Result Fault LoadBalancer
  answer k s =
      (B.get_load_balancer id (reached (pausing active_backoff) (poll B id) 19 k (s, [])).0).0

  -- The variable `provisioningStatus` at that poll.
  abbrev before : ℕ → B.cloud.State → Str
  before k s = (reached (pausing active_backoff) (poll B id) 19 k (s, [])).1

  all_polls : B.cloud.State → Result Fault (Unit {0}) × (B.cloud.State × Str)
  all_polls s = attempts (pausing active_backoff) (poll B id) 19 (s, [])

  Active : B.cloud.State → Type 0
  Active s = (k : ℕ) × (k < 19) × ((i : ℕ) → i < k → IsPending (answer i s)) × IsActive (answer k s)

  met-Active : (s : B.cloud.State) → (all_polls s).0 ≡ ok tt → Active s
  unfolding poll all_polls Active
  met-Active s h =
      let (k, (l, p, m)) = attempts-met (pausing active_backoff) (poll B id) 19 (s, []) h in
      (k, l, (λ i j. pending (before i s) _ (p i j)), active (before k s) _ m)

  Active-met :
      (s : B.cloud.State)
      → Active s
      → ((all_polls s).0 ≡ ok tt) × ((all_polls s).1.1 ≡ str "ACTIVE")
  unfolding poll all_polls Active
  Active-met s (k, l, q, a) =
      let (e, f) =
        met-attempts (pausing active_backoff) (poll B id) 19 k (s, [])
          (l, (λ i j. pending-answer _ _ (q i j)), ap (λ x. x.0) (active-answer _ _ a)) in
      (e, ap (λ x. x.1) f ∙ ap (λ x. x.1) (active-answer _ _ a))

  -- One of the first 19 polls sees the load balancer active, and each poll before it sees it in a state other
  -- than "ACTIVE" and "ERROR".
  abbrev pub BecomesActive : B.cloud.State → Type 0
  BecomesActive s =
      (k : ℕ) × (k < 19) × ((i : ℕ) → i < k → IsPending (answer i s)) × IsActive (answer k s)

  ends_well-Active :
      (status : Str) (s : B.cloud.State) → (wait_active B id s).0 ≡ ok status → BecomesActive s
  unfolding wait_active all_polls Active
  ends_well-Active status s h =
      let (u, _) = with_value-ok _ _ _ (timeout_as-ok _ _ _ h) in
      met-Active s (ap (λ x. x.0) (sym (laws.attempts_made active_backoff (poll B id) (s, []))) ∙ u)

  Active-returned :
      (s : B.cloud.State) → BecomesActive s → (wait_active B id s).0 ≡ ok (str "ACTIVE")
  unfolding wait_active all_polls Active
  Active-returned s a =
      let (e, f) = Active-met s a in
      rw (laws.attempts_made active_backoff (poll B id) (s, [])) (rw e (ap ok f))

  -- A wait returns no error exactly if one of the first 19 polls sees the load balancer active, and each poll
  -- before it sees it in a state other than "ACTIVE" and "ERROR"; and in exactly this case it returns the
  -- status "ACTIVE" without an error.
  pub wait_active_iff :
      (s : B.cloud.State)
      → (((status : Str) × ((wait_active B id s).0 ≡ ok status)) ↔ BecomesActive s)
        × (((wait_active B id s).0 ≡ ok (str "ACTIVE")) ↔ BecomesActive s)
  wait_active_iff s = (
    ((λ e. ends_well-Active e.0 s e.1), λ a. (str "ACTIVE", Active-returned s a)),
    (ends_well-Active (str "ACTIVE") s, Active-returned s),
  )

  -- If a read of the load balancer counts at most once, and a pause not at all, then the wait for "ACTIVE"
  -- reads at most 19 times, and the wait for the deletion at most 13 times, however they end.
  pub wait-bounded :
      (count : B.cloud.State → ℕ)
      → ((s : B.cloud.State) → count (B.get_load_balancer id s).1 ≤ count s + 1)
      → ((b : Backoff) (i : ℕ) (s : B.cloud.State) → count (laws.pause b i s) ≡ count s)
      → (s : B.cloud.State)
      → (count (wait_active B id s).1 ≤ count s + 19)
        × (count (wait_deleted B id s).1 ≤ count s + 13)
  unfolding wait_active poll wait_deleted poll_deleted
  wait-bounded count once still s = (
    rw (laws.attempts_made active_backoff (poll B id) (s, [])) (
        attempts-le (pausing active_backoff) (poll B id) (λ p. count p.0) 19 (s, []) (λ p. once p.0)
          (λ i p. still active_backoff i p.0)),
    rw (laws.attempts_made delete_backoff (poll_deleted B id) (s, tt)) (
        attempts-le (pausing delete_backoff) (poll_deleted B id) (λ p. count p.0) 13 (s, tt)
          (λ p. once p.0) (λ i p. still delete_backoff i p.0)),
  )
