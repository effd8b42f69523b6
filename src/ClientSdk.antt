-- ===== src/ClientSdk.antt =====
-- packages/client/src: the SDK with which a client connects to a gateway.
pub mod Socket
pub mod TopicKey
pub mod Session
pub mod Ops
pub mod Steps
pub mod Calls
pub mod Closing
