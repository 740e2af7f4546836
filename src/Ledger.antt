-- ===== src/Ledger.antt =====
-- The chains of identities and companies: core/src/blockchain/identity and core/src/blockchain/company
-- with core/src/identity.rs and core/src/company.rs, and their tables in
-- crates/bcr-ebill-persistence/src/db. `core` stands for crates/bcr-ebill-core.
pub mod Data
pub mod Env
pub mod Identity
pub mod Company
pub mod Table
pub mod Created
