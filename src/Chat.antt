-- ===== src/Chat.antt =====
-- apps/web/src/chat: the services behind a P2P conversation.
pub mod Handshake
pub mod History
