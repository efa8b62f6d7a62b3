-- ===== src/Audit.antt =====
-- internal/audit: events, and the logger that batches them.
pub mod Event
pub mod Logger
