-- ===== src/Messaging.antt =====
-- svc-aerial-messaging: messages between users, in a table and on a JetStream subject for each
-- recipient, from which the recipient's WebSocket is fed.
pub mod Model
pub mod Service
pub mod Stream
pub mod Handler
mod Tests
