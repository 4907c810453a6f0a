-- ===== src/Messaging.antt =====
-- packages/contracts/messaging/assembly/Messaging.ts
pub mod State
pub mod Checks
pub mod Conversations
pub mod Messages
pub mod Pairs
pub mod Delivery
pub mod Lifecycle
