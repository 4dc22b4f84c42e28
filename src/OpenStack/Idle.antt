-- ===== src/OpenStack/Idle.antt =====
-- Services that do nothing, over any state: the ground of the concrete ones.
use cpo.Base.{false, none, []}
use cpo.Exec.{ok, err}
use cpo.OpenStack.Api.{not_found, done, Cloud}
use cpo.OpenStack.Volumes.Api.{timeout, Cinder}

abbrev pub idle_cloud : Type 0 → Cloud
idle_cloud State = record {
  State = State;
  list_servers = λ _ s. (done, s);
  list_interfaces = λ _ s. (done, s);
  get_router = λ _ s. (err not_found, s);
  update_router = λ _ _ s. (ok tt, s);
  get_port = λ _ s. (ok none, s);
  update_port = λ _ _ s. (ok tt, s);
  is_ipv6 = λ _. false;
  is_cidr_v6 = λ _. false;
  to_lower = λ s. s;
}

abbrev pub idle_cinder : Type 0 → Cinder
idle_cinder State = record {
  cloud = idle_cloud State;
  block_storage = λ _ s. (ok tt, s);
  compute = λ s. (ok tt, s);
  get = λ _ _ s. (err timeout, s);
  create = λ _ _ s. (err timeout, s);
  delete = λ _ _ s. (ok tt, s);
  extend = λ _ _ _ s. (ok tt, s);
  attach = λ _ _ s. (ok tt, s);
  detach = λ _ _ s. (ok tt, s);
  get_server = λ _ s. (err timeout, s);
  disks_by_id = λ s. ([], s);
  devices = λ s. (ok [], s);
  glob = λ _ s. (ok [], s);
  exponential_backoff = λ _ _ p. (err timeout, p);
}
