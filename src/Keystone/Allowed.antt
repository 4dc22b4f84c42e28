-- ===== src/Keystone/Allowed.antt =====
-- `getAllowed`, `resourcePermissionAllowed` and `nonResourcePermissionAllowed` of
-- pkg/identity/keystone/authorizer.go. `unmarshal` stands for `json.Unmarshal` into a
-- `[]string`: `none` is its error.
pub mod Definition
pub mod Permissions
pub mod Syntax
pub mod Meaning
pub mod AnyOrder
