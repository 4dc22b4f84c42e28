-- ===== src/OpenStack/Lbaas/Update/Legacy.antt =====
-- `UpdateLoadBalancer` and load balancers that still have their legacy name.
use cpo.Base.{◌≡◌, refl, List, [], ◌∷◌, Str}
use cpo.Exec.{ok, err, continue}
use cpo.OpenStack.Api.{not_found}
use cpo.OpenStack.Lbaas.Api.{known, Balancer}
use cpo.OpenStack.Lbaas.Lookup.{or_legacy, get_loadbalancer_by_name}
use cpo.OpenStack.Lbaas.Services.{Service, Node, LbOpts, get_load_balancer_name}
use cpo.OpenStack.Lbaas.Update.{update_parts}

module _ (B : Balancer) where
  -- A second search for the same name.
  or_legacy-same :
      (name : Str) (s : B.cloud.State)
      → ((s : B.cloud.State) → (B.list_load_balancers name s).0 ≡ ok [])
      → (get_loadbalancer_by_name B name name s).0 ≡ err (known not_found)
  unfolding get_loadbalancer_by_name or_legacy
  or_legacy-same [] s none_named = rw (none_named s, continue) refl
  or_legacy-same (c ∷ name) s none_named =
      rw (none_named s, continue) (rw (none_named _, continue) refl)

  -- If no load balancer has the name that the cluster and the service give, a call fails with
  -- `ErrNotFound`, also where one has the legacy name of the service.
  pub update_parts-legacy :
      (opts : LbOpts) (cluster_name : Str) (service : Service) (nodes : List Node)
      (s : B.cloud.State)
      → ((s : B.cloud.State)
          → (B.list_load_balancers (get_load_balancer_name cluster_name service) s).0 ≡ ok [])
      → (update_parts B opts cluster_name service nodes s).0 ≡ err (known not_found)
  unfolding update_parts
  update_parts-legacy opts cluster_name service nodes s none_named =
      rw (or_legacy-same (get_load_balancer_name cluster_name service) s none_named, continue) refl
