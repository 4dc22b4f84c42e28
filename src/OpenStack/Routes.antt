-- ===== src/OpenStack/Routes.antt =====
-- openstack_routes.go: the routes of the cluster in a Neutron router.
pub mod Unwind
pub mod Ports
pub mod Create
pub mod Delete
pub mod Laws
pub mod Settles
pub mod PairUpdates
pub mod Replace
pub mod Created
pub mod Deleted
pub mod SwapOut
pub mod Listing
