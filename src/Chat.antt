-- ===== src/Chat.antt =====
-- The decision to hand a chat message to a member (src/runtime/realtime).
pub mod Language
pub mod Dispatch
