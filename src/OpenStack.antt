-- ===== src/OpenStack.antt =====
-- pkg/cloudprovider/providers/openstack: node addresses, instances and routes.
pub mod Api
pub mod Idle
pub mod Servers
pub mod Instances
pub mod Routes
pub mod Lbaas
pub mod Volumes
mod Scenarios
