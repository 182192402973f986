-- ===== src/Call.antt =====
-- apps/web/src/call, apps/web/src/components/call-layout.ts, apps/web/src/application/chat-routing.ts:
-- the session of a call, the recovery of its connections and the grid of its tiles.
pub mod Session
pub mod Recovery
pub mod Layout
