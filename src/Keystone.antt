-- ===== src/Keystone.antt =====
-- pkg/identity/keystone: the webhook that authorizes requests by a policy list, and the sync.
pub mod Policy
pub mod Find
pub mod Allowed
pub mod Match
pub mod Authenticate
pub mod Authorize
pub mod Sync
pub mod Handler
pub mod Controller
pub mod Webhook
mod Scenarios
