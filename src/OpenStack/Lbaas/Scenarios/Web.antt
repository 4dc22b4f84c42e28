-- ===== src/OpenStack/Lbaas/Scenarios/Web.antt =====
-- A web service and the options of a cluster.
use cpo.Base.{true, false, List, [], Str, str}
use cpo.OpenStack.Lbaas.Services.{ServicePort, Service, LbOpts}

abbrev pub web_port : ServicePort
web_port = record { protocol = str "TCP"; port = 80; node_port = 30080 }

abbrev pub service_with : List (Str × Str) → List ServicePort → Service
service_with annotations ports = record {
  uid = str "u1";
  namespace = str "ns";
  name = str "web";
  annotations = annotations;
  ports = ports;
  load_balancer_ip = [];
  load_balancer_source_ranges = [];
  session_affinity = str "None";
}

abbrev pub opts : LbOpts
opts = record {
  use_octavia = true;
  subnet_id = str "s";
  floating_network_id = [];
  lb_method = [];
  lb_provider = [];
  create_monitor = false;
  monitor_delay = 5;
  monitor_timeout = 3;
  monitor_max_retries = 1;
  manage_security_groups = false;
  node_security_group_ids = [];
  internal_lb = false;
}
