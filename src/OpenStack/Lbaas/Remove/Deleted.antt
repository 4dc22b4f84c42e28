-- ===== src/OpenStack/Lbaas/Remove/Deleted.antt =====
-- `EnsureLoadBalancerDeleted` without Octavia: the load balancer is gone.
use cpo.Base.{ℕ, ◌≡◌, refl, sym, ap, ◌∙◌, Bool, true, false, some, [], Str, str, if◌then◌else◌}
use mathlib.Core.Path.{subst}
use cpo.Exec.{Result, ok, err, pure, lift, ok-injective}
use cpo.Exec.Post.{Post, bind-Post, if-Post}
use cpo.OpenStack.Lbaas.Api.{Fault, missing, LoadBalancer, Balancer}
use cpo.OpenStack.Lbaas.Calls.{seen, wrapped, wrapped-ok, or_missing, if_found}
use cpo.OpenStack.Lbaas.Groups.{ensure_security_group_deleted}
use cpo.OpenStack.Lbaas.Listeners.{flag}
use cpo.OpenStack.Lbaas.Lookup.{get_loadbalancer_by_name, get_listeners_by_load_balancer_id}
use cpo.OpenStack.Lbaas.Remove.{
  find_parts, delete_monitors, delete_pools, delete_all_listeners, delete_each,
  delete_load_balancer, delete_floating_ip, delete_found, ensure_load_balancer_deleted,
}
use cpo.OpenStack.Lbaas.Services.{Service, LbOpts, get_load_balancer_name, keep_floating_ip}
use cpo.OpenStack.Lbaas.Wait.{delete_backoff, deleted_answer, poll_deleted, wait_deleted}
use cpo.OpenStack.Lbaas.Wait.Active.{BackoffLaws, timeout_as-ok}
use cpo.OpenStack.Lbaas.Wait.Attempts.{attempts-met, met-attempts}
use cpo.Sets.{StringSet}
use cpo.OpenStack.Lbaas.Remove.Laws.{PresenceLaws, Still, groups_deleted-Still}

deleted_answer-true : (r : Result Fault LoadBalancer) → deleted_answer r ≡ ok true → r ≡ err missing
deleted_answer-true (ok lb) h = cc
deleted_answer-true (err missing) h = refl
deleted_answer-true (err _) h = cc

module _ (B : Balancer) (S : StringSet) (waits : BackoffLaws B) (laws : PresenceLaws B) where
  abbrev Gone : Str → {A : Type 0} → A → B.cloud.State → Type 0
  Gone id a s = laws.there s id ≡ false

  -- A wait for the deletion that ends well has seen it.
  wait_deleted-Gone : (id : Str) (s : B.cloud.State) → Post (wait_deleted B id) s (Gone id)
  unfolding wait_deleted poll_deleted
  wait_deleted-Gone id s u h =
      let pausing : ℕ → B.cloud.State × Unit {0} → B.cloud.State × Unit {0} =
        λ n q. (waits.pause delete_backoff n q.0, q.1) in
      let made = waits.attempts_made delete_backoff (poll_deleted B id) (s, tt) in
      let (k, (l, p, m)) =
        attempts-met pausing (poll_deleted B id) 13 (s, tt)
          (ap (λ x. x.0) (sym made) ∙ timeout_as-ok _ _ _ h) in
      let (_, last) = met-attempts pausing (poll_deleted B id) 13 k (s, tt) (l, p, m) in
      rw made (rw last (laws.read_missing id _ (deleted_answer-true _ m)))

  delete_each-Gone : (id : Str) (s : B.cloud.State) → Post (delete_each B S id) s (Gone id)
  unfolding delete_each
  delete_each-Gone id s =
      bind-Post (seen (wrapped (str "error getting LB")) (get_listeners_by_load_balancer_id B id)) _
        s (Gone id)
        λ listeners _. bind-Post (find_parts B S id ([], []) listeners) _ _ (Gone id) λ parts _.
          bind-Post (delete_monitors B S id parts.1) _ _ (Gone id) λ _ _.
            bind-Post (delete_pools B S id parts.0) _ _ (Gone id) λ _ _.
              bind-Post (delete_all_listeners B S id listeners) _ _ (Gone id) λ _ _.
                bind-Post (seen or_missing (B.delete_load_balancer id false)) _ _ (Gone id)
                  λ _ _. λ a h. wait_deleted-Gone id _ a (wrapped-ok _ _ _ h)

  delete_load_balancer-Gone :
      (use_octavia : Bool) (id : Str) (s : B.cloud.State)
      → use_octavia ≡ false
      → Post (delete_load_balancer B S use_octavia id) s (Gone id)
  unfolding delete_load_balancer
  delete_load_balancer-Gone true id s h = cc
  delete_load_balancer-Gone false id s h = delete_each-Gone id s

  -- What comes after leaves it gone.
  groups-Gone :
      (opts : LbOpts) (service : Service) (id : Str) (s : B.cloud.State)
      → opts.use_octavia ≡ false
      → laws.there s id ≡ false
      → Post
          (if opts.manage_security_groups
            then seen
                (wrapped (str "failed to delete Security Group for loadbalancer service"))
                (ensure_security_group_deleted B S opts service)
            else pure tt)
          s
          (Gone id)
  unfolding Still
  groups-Gone opts service id s h gone =
      if-Post opts.manage_security_groups _ _ s (Gone id)
        (λ _ _ _.
          ap (λ there. there id) ((groups_deleted-Still B S laws opts service h).at s) ∙ gone)
        λ _ _ _. gone

  delete_found-Gone :
      (opts : LbOpts) (service : Service) (lb : LoadBalancer) (s : B.cloud.State)
      → opts.use_octavia ≡ false
      → Post (delete_found B S opts service (some lb)) s (Gone lb.id)
  unfolding delete_found
  delete_found-Gone opts service lb s h =
      bind-Post (lift (flag service keep_floating_ip)) _ s (Gone lb.id) λ keep _.
        bind-Post (delete_floating_ip B S keep lb.vip_port_id) _ _ (Gone lb.id) λ _ _.
          bind-Post (delete_load_balancer B S opts.use_octavia lb.id) _ _ (Gone lb.id) λ u d.
            groups-Gone opts service lb.id _ h
              (delete_load_balancer-Gone opts.use_octavia lb.id _ h u d)

  -- Without Octavia, if the load balancer of the service is found, and the deletion of what belongs to the
  -- service ends well, then the load balancer is not there any more.
  pub ensure_load_balancer_deleted-gone :
      (opts : LbOpts) (cluster_name : Str) (service : Service) (lb : LoadBalancer)
      (s : B.cloud.State)
      → opts.use_octavia ≡ false
      → (get_loadbalancer_by_name B
          (get_load_balancer_name cluster_name service)
          (B.default_load_balancer_name service)
          s).0
        ≡ ok lb
      → (ensure_load_balancer_deleted B S opts cluster_name service s).0 ≡ ok tt
      → laws.there (ensure_load_balancer_deleted B S opts cluster_name service s).1 lb.id ≡ false
  unfolding ensure_load_balancer_deleted
  ensure_load_balancer_deleted-gone opts cluster_name service lb s h found done =
      let find = seen if_found (
        get_loadbalancer_by_name B (get_load_balancer_name cluster_name service)
          (B.default_load_balancer_name service)) in
      bind-Post find (delete_found B S opts service) s (Gone lb.id)
        (λ o e.
          let k : some lb ≡ o = ok-injective _ _ (sym (ap if_found found) ∙ e) in
          subst (λ o. Post (delete_found B S opts service o) (find s).1 (Gone lb.id)) k
            (delete_found-Gone opts service lb _ h))
        tt done
