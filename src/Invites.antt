-- ===== src/Invites.antt =====
-- apps/web/src/services/invites
pub mod Limiter
