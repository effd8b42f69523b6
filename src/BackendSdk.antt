-- ===== src/BackendSdk.antt =====
-- packages/backend/src/index.ts: the SDK with which a backend connects to a gateway.
pub mod Serve
pub mod Failure
pub mod Session
pub mod Steps
pub mod Modes
pub mod Happenings
pub mod Persistence
pub mod Offers
pub mod Exchange
pub mod RoundTrip
