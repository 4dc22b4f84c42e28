-- ===== src/Keystone/Sync.antt =====
-- pkg/identity/keystone/sync.go: what a login copies from Keystone to the cluster.
pub mod Config
pub mod Cluster
pub mod Steps
pub mod Bindings
pub mod Roles
pub mod Loop
pub mod Project
pub mod Login
pub mod Tokens
pub mod Named
mod Scenarios
