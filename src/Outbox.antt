-- ===== src/Outbox.antt =====
-- What a node sends to the other nodes of a bill, and what it tries again: of
-- crates/bcr-ebill-transport/src/event and
-- crates/bcr-ebill-api/src/service/notification_service/default_service.rs, with the table of
-- crates/bcr-ebill-persistence/src/db/nostr_send_queue.rs.
pub mod Queue
pub mod Propagation
