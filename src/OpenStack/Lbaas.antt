-- ===== src/OpenStack/Lbaas.antt =====
-- openstack_loadbalancer.go: load balancers of neutron LBaaS v2 and Octavia for services.
pub mod Services
pub mod Api
pub mod Calls
pub mod Lookup
pub mod Wait
pub mod Members
pub mod Listeners
pub mod Groups
pub mod Ranges
pub mod EnsureGroup
pub mod Remove
pub mod FloatingIps
pub mod Subnets
pub mod Plans
pub mod Ensure
pub mod Update
mod Scenarios
