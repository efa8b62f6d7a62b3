-- ===== src/Core.antt =====
-- internal/core: the authenticator that the protocols share.
pub mod Authenticator
