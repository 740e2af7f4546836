-- ===== src/Service.antt =====
-- The bill service of a node, crates/bcr-ebill-api/src/service/bill_service: an action of the node's
-- own user on a bill is checked, signed and stored, and payments are answered with actions.
pub mod State
pub mod Fetch
pub mod Block
pub mod Execute
pub mod Payment
