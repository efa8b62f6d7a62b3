-- ===== src/Tests.antt =====
-- The theorems at concrete inputs, and small runs of the definitions.
pub mod Data
pub mod Logins
pub mod Storage
pub mod Trail
pub mod Web
pub mod Users
pub mod Servers
pub mod Api
pub mod Files
