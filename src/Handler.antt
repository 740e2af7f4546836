-- ===== src/Handler.antt =====
-- crates/bcr-ebill-transport/src/handler/bill_chain_event_handler.rs: a node takes in the bill
-- blocks that another node sent, over the stores of crates/bcr-ebill-persistence.
pub mod Store
pub mod Exec
pub mod Chain
pub mod Safety
pub mod Complete
pub mod Events
pub mod Gaps
