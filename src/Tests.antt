-- ===== src/Tests.antt =====
-- Concrete runs: a small platform, a bill's blocks made on it, and the theorems at such inputs.
pub mod Sample
pub mod Blocks
mod Chains
mod Actions
pub mod Events
mod Platforms
mod Creation
pub mod Execution
mod Ledgers
mod Messages
pub mod Payments
