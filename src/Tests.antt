-- ===== src/Tests.antt =====
-- Concrete inputs, and the theorems at them.
pub mod Data
pub mod Edges
pub mod Credentials
pub mod Gateways
pub mod Requests
pub mod Runs
pub mod Sdk
pub mod Routes
