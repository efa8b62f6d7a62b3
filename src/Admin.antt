-- ===== src/Admin.antt =====
-- internal/admin: the HTTP API of the administrators.
pub mod Paths
pub mod Sessions
pub mod Users
pub mod Requests
pub mod Oidc
pub mod Account
pub mod Folders
pub mod Limits
pub mod Routes
pub mod AuditApi
pub mod Files
