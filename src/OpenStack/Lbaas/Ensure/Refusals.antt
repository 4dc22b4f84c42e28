-- ===== src/OpenStack/Lbaas/Ensure/Refusals.antt =====
-- `EnsureLoadBalancer` changes nothing for a service that it does not support.
use cpo.Base.{nat_eq, list_eq}
use cpo.Exec.Keeps.{Keeps}
