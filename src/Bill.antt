-- ===== src/Bill.antt =====
-- The bill: its block data, its blocks, its chain, and the rules for actions on it
-- (core/src/bill and core/src/blockchain/bill). `core` stands for crates/bcr-ebill-core.
pub mod Data
pub mod Env
pub mod Validate
pub mod Block
pub mod Create
pub mod Signer
pub mod Chain
pub mod Payments
pub mod Endorsees
pub mod Action
