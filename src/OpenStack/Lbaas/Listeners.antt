-- ===== src/OpenStack/Lbaas/Listeners.antt =====
-- openstack_loadbalancer.go: the listener, the pool and the monitor of one port of a service, in
-- `EnsureLoadBalancer`, and the removal of listeners that no port uses.
use cpo.Base.{
  ℕ, suc, ◌==◌, Bool, false, not, ◌&&◌, Option, none, some, List, [], ◌∷◌, ◌++◌, Str, str,
  if◌then◌else◌, nat_eq, list_eq,
}
use cpo.Exec.{Result, ok, err, ◌>>=◌, pure, lift}
use cpo.OpenStack.Lbaas.Api.{
  Fault, failed, Listener, ListenerOpts, Pool, PoolOpts, MonitorOpts, Balancer,
}
use cpo.OpenStack.Lbaas.Calls.{Call, seen, wrapped, if_found, or_missing, or_empty}
use cpo.OpenStack.Lbaas.Lookup.{
  get_listener_for_port, get_pool_by_listener_id, get_members_by_pool_id,
}
use cpo.OpenStack.Lbaas.Members.{Target, settled, ensure_members, delete_members}
use cpo.OpenStack.Lbaas.Services.{
  ServicePort, Service, Node, LbOpts, get_string_from_service_annotation,
  get_int_from_service_annotation, get_bool_from_service_annotation, cut_string, connection_limit,
  x_forwarded_for, proxy_protocol, timeout_client_data, timeout_member_data, timeout_member_connect,
  timeout_tcp_inspect,
}
use cpo.OpenStack.Routes.Delete.{find_index, write_last, shorten}
use cpo.Strings.Decimal.{ℤ, ℤ_beq, atoi, decimal}

-- What the loop over the ports has in scope. `lb_method` is `lbmethod`, and `persistence` the type
-- of the session persistence.
pub record Run : Type 0 where
  pub service : Service
  pub name : Str
  pub load_balancer_id : Str
  pub lb_method : Str
  pub persistence : Option Str
  pub nodes : List Node
  pub opts : LbOpts

abbrev pub or_failed : {A : Type 0} → Str → Option A → Result Fault A
or_failed text none = err (failed text)
or_failed text (some a) = ok a

-- An annotation that must be "true" or "false".
unfoldable pub flag : Service → Str → Result Fault Bool
flag service key = or_failed (str "unknown") (get_bool_from_service_annotation service key false)

abbrev limit_or_default : Option ℤ → ℤ
limit_or_default none = ℤ.negsuc 0
limit_or_default (some n) = n

-- `connLimit`
unfoldable pub conn_limit : Service → ℤ
conn_limit service =
    limit_or_default (atoi (get_string_from_service_annotation service connection_limit (str "-1")))

unfoldable pub listener_opts : Run → ℕ → ServicePort → Bool → ListenerOpts
listener_opts run index port keep_client_ip = record {
  name = cut_string (str "listener_" ++ decimal index ++ str "_" ++ run.name);
  protocol = if keep_client_ip then str "HTTP" else port.protocol;
  protocol_port = port.port;
  conn_limit = conn_limit run.service;
  load_balancer_id = run.load_balancer_id;
  timeout_client_data = get_int_from_service_annotation run.service timeout_client_data;
  timeout_member_data = get_int_from_service_annotation run.service timeout_member_data;
  timeout_member_connect = get_int_from_service_annotation run.service timeout_member_connect;
  timeout_tcp_inspect = get_int_from_service_annotation run.service timeout_tcp_inspect;
  x_forwarded_for = keep_client_ip;
}

unfoldable pub pop_listener : List Listener → Str → List Listener
pop_listener listeners id = elim (find_index (λ (l : Listener). l.id == id) listeners) [
  | none ↦ listeners
  | some i ↦ shorten (write_last listeners i)
]

-- `poolProto`
unfoldable pub pool_protocol : Bool → Bool → Result Fault Str
pool_protocol use_proxy_protocol keep_client_ip =
    if use_proxy_protocol && keep_client_ip
    then err (failed (str "annotation"))
    else if use_proxy_protocol
    then ok (str "PROXY")
    else if keep_client_ip
    then ok (str "HTTP")
    else ok (str "TCP")

abbrev pool_opts : Run → ℕ → Str → Str → PoolOpts
pool_opts run index listener_id protocol = record {
  name = cut_string (str "pool_" ++ decimal index ++ str "_" ++ run.name);
  protocol = protocol;
  lb_method = run.lb_method;
  listener_id = listener_id;
  persistence = run.persistence;
}

abbrev monitor_opts : Run → ℕ → ServicePort → Str → MonitorOpts
monitor_opts run index port pool_id = record {
  name = cut_string (str "monitor_" ++ decimal index ++ str "_" ++ run.name ++ str ")");
  pool_id = pool_id;
  kind = port.protocol;
  delay = run.opts.monitor_delay;
  timeout = run.opts.monitor_timeout;
  max_retries = run.opts.monitor_max_retries;
}

abbrev target : Run → ℕ → ServicePort → Str → Target
target run index port pool_id = record {
  load_balancer_id = run.load_balancer_id;
  pool_id = pool_id;
  name = run.name;
  port_index = index;
  node_port = port.node_port;
  subnet_id = run.opts.subnet_id;
}

module _ (B : Balancer) where
  -- The identifier of the listener, and `keepClientIP`.
  unfoldable pub ensure_listener : Run → ℕ → ServicePort → Option Listener → Call B (Str × Bool)
  ensure_listener run index port none = do
    keep_client_ip ← lift (flag run.service x_forwarded_for)
    listener ←
        seen (wrapped (str "error creating LB listener"))
          (B.create_listener (listener_opts run index port keep_client_ip))
    _ ←
        settled B run.load_balancer_id
          (str "timeout when waiting for loadbalancer to be ACTIVE after creating listener")
    pure (listener.id, keep_client_ip)
  ensure_listener run index port (some listener) =
      if not (ℤ_beq (conn_limit run.service) listener.conn_limit)
      then (do
        _ ←
            seen (wrapped (str "error updating LB listener"))
              (B.update_listener listener.id (conn_limit run.service))
        _ ←
            settled B run.load_balancer_id
              (str "timeout when waiting for loadbalancer to be ACTIVE after updating listener")
        pure (listener.id, false))
      else pure (listener.id, false)

  unfoldable pub ensure_pool : Run → ℕ → Str → Bool → Option Pool → Call B Pool
  ensure_pool run index listener_id keep_client_ip (some pool) = pure pool
  ensure_pool run index listener_id keep_client_ip none = do
    use_proxy_protocol ← lift (flag run.service proxy_protocol)
    protocol ← lift (pool_protocol use_proxy_protocol keep_client_ip)
    pool ←
        seen (wrapped (str "error creating pool for listener"))
          (B.create_pool (pool_opts run index listener_id protocol))
    _ ←
        settled B run.load_balancer_id
          (str "timeout when waiting for loadbalancer to be ACTIVE after creating pool")
    pure pool

  unfoldable pub ensure_monitor : Run → ℕ → ServicePort → Pool → Call B (Unit {0})
  ensure_monitor run index port pool =
      if pool.monitor_id == [] && run.opts.create_monitor
      then (do
        _ ←
            seen (wrapped (str "error creating LB pool healthmonitor"))
              (B.create_monitor (monitor_opts run index port pool.id))
        settled B run.load_balancer_id
            (str "timeout when waiting for loadbalancer to be ACTIVE after creating monitor"))
      else pure tt

  -- One round for a port, with the listeners that no port before it uses.
  unfoldable pub ensure_port : Run → ℕ → List Listener → ServicePort → Call B (List Listener)
  ensure_port run index old_listeners port = do
    (listener_id, keep_client_ip) ←
        ensure_listener run index port (get_listener_for_port old_listeners port)
    let left = pop_listener old_listeners listener_id
    found ←
        seen (λ r. wrapped (str "error getting pool for listener") (if_found r))
          (get_pool_by_listener_id B run.load_balancer_id listener_id)
    pool ← ensure_pool run index listener_id keep_client_ip found
    _ ← ensure_members B (target run index port pool.id) run.nodes
    _ ← ensure_monitor run index port pool
    pure left

  -- The loop over the ports.
  unfoldable pub ensure_ports : Run → ℕ → List Listener → List ServicePort → Call B (List Listener)
  ensure_ports run index old_listeners [] = pure old_listeners
  ensure_ports run index old_listeners (port ∷ ports) =
      ensure_port run index old_listeners port >>= λ left. ensure_ports run (suc index) left ports

  unfoldable pub delete_monitor_of : Str → Str → Call B (Unit {0})
  delete_monitor_of load_balancer_id monitor_id =
      if not (monitor_id == [])
      then (do
        _ ←
            seen (λ r. wrapped (str "error deleting obsolete monitor") (or_missing r))
              (B.delete_monitor monitor_id)
        settled B load_balancer_id
            (str "timeout when waiting for loadbalancer to be ACTIVE after deleting monitor"))
      else pure tt

  -- The monitor, the members and the pool of a listener that no port uses.
  unfoldable pub delete_pool_of : Str → Option Pool → Call B (Unit {0})
  delete_pool_of load_balancer_id none = pure tt
  delete_pool_of load_balancer_id (some pool) = do
    _ ← delete_monitor_of load_balancer_id pool.monitor_id
    members ←
        seen (λ r. wrapped (str "error getting members for pool") (or_empty r))
          (get_members_by_pool_id B pool.id)
    _ ← delete_members B load_balancer_id pool.id members
    _ ←
        seen (λ r. wrapped (str "error deleting obsolete pool") (or_missing r))
          (B.delete_pool pool.id)
    settled B load_balancer_id
        (str "timeout when waiting for loadbalancer to be ACTIVE after deleting pool")

  unfoldable pub delete_listener : Str → Listener → Call B (Unit {0})
  delete_listener load_balancer_id listener = do
    found ←
        seen (λ r. wrapped (str "error getting pool for obsolete listener") (if_found r))
          (get_pool_by_listener_id B load_balancer_id listener.id)
    _ ← delete_pool_of load_balancer_id found
    _ ←
        seen (λ r. wrapped (str "error deleteting obsolete listener") (or_missing r))
          (B.delete_listener listener.id)
    settled B load_balancer_id
        (str "timeout when waiting for loadbalancer to be ACTIVE after deleting listener")

  -- The loop over the listeners that are left.
  unfoldable pub delete_listeners : Str → List Listener → Call B (Unit {0})
  delete_listeners load_balancer_id [] = pure tt
  delete_listeners load_balancer_id (listener ∷ listeners) =
      delete_listener load_balancer_id listener >>= λ _. delete_listeners load_balancer_id listeners
