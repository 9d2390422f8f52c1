-- ===== src/Topics.antt =====
-- Channel topics (src/channel-topics): who owns a conversation, who takes part, and hand-overs.
pub mod Domain
pub mod Service
pub mod Routing
pub mod Participants
pub mod Normal
pub mod Handoffs
pub mod Invariant
pub mod Tests
