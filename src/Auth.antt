-- ===== src/Auth.antt =====
-- internal/auth: the password rule and the lockout.
pub mod Runes
pub mod Password
pub mod Lockout
