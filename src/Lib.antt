-- ===== src/Lib.antt =====
-- E-Bill: electronic bills of exchange as chains of signed blocks. This library models the core of
-- the program (crates/bcr-ebill-core), the user's actions on a bill (crates/bcr-ebill-api), the
-- messages about them and the handler of received bill events (crates/bcr-ebill-transport), and the
-- tables that these write (crates/bcr-ebill-persistence).
--
-- The parts, and where their code is:
--   Prelude       tests on numbers, lists, texts, and the results of fallible code
--   Error         the errors of core/src/lib.rs, core/src/blockchain/mod.rs, core/src/util/crypto.rs
--   Platform      what the code takes from other crates: secp256k1, ecies, base58, sha256, chrono
--   Util          core/src/util: Crypto, Currency, Date; in Crypto/Laws what is assumed of
--                 keys and signatures, in Crypto/Signatures the proofs
--   Contact       core/src/contact.rs, and the addresses and files of core/src/lib.rs
--   Blockchain    core/src/blockchain/mod.rs: the traits `Block` and `Blockchain`, with the proofs in
--                 Links (validity), Order, Growth, Sync (merging of chains) and Lookup
--   Bill          Data, Validate, Block, Create, Signer: core/src/blockchain/bill/block.rs; Chain,
--                 Payments, Endorsees: core/src/blockchain/bill/chain.rs; Action:
--                 core/src/bill/validation.rs. The proofs are in Create/RoundTrip, Chain/Parties,
--                 Endorsees/Kept and Past, and in Action/Authority, Terminal, Blocking, Terms and
--                 Recourse
--   Ledger        the chains of the identity and of its companies. Data, Identity, Company:
--                 core/src/blockchain/identity/mod.rs and company/mod.rs, core/src/identity.rs and
--                 company.rs; Table: identity_chain.rs and company_chain.rs of
--                 crates/bcr-ebill-persistence/src/db. The proofs are in Table/Chains (the tables)
--                 and Created (blocks as they are created, stored and read)
--   Service       crates/bcr-ebill-api/src/service/bill_service: Fetch: data_fetching.rs; Block and
--                 Execute: blocks.rs and `execute_bill_action` of service.rs; Payment: payment.rs.
--                 State holds the tables and the errors (error.rs). The proofs are in Block/Meaning (a block says what its
--                 action says) and in Execute: Outcome, Reading, Admitted, and Peers (other nodes),
--                 and in Payment/Answered
--   Outbox        Queue: nostr_send_queue.rs of the tables, and the retries of
--                 notification_service/default_service.rs; Propagation: the messages of an action,
--                 crates/bcr-ebill-transport/src/event/chain_event.rs, the choice of them in
--                 default_service.rs, and bill_service/propagation.rs. The proofs are in
--                 Queue/Looped, Retried, Settled, and Propagation/Blocks, Delivery
--   Handler       Store: the tables of crates/bcr-ebill-persistence/src/db/bill_chain.rs and bill.rs;
--                 Chain: crates/bcr-ebill-transport/src/handler/bill_chain_event_handler.rs; the
--                 proofs are in Safety, Events, Complete and Gaps
--   Tests         a platform that computes, and the theorems at blocks made on it
-- `core` stands for crates/bcr-ebill-core.
--
-- A bill is issued by a first block, and every further action on it (accept, endorse, sell, request
-- payment, recourse, …) is a block that names the hash of the one before it, is signed by the acting
-- party together with the bill's key, and holds its data encrypted for the bill's key. The service
-- checks an action of the user against the bill's chain, stores its block, and notes it in the chains
-- of the identity and the company; then each participant is sent the block, or the whole chain with
-- the keys when it is new to the bill. A message that cannot be sent waits in a queue. The handler
-- takes blocks from other nodes, checks each against the chain before it (`try_add_block`,
-- `verify_and_get_signer`, `get_bill_parties`, `validate`), and stores it.
--
-- Correspondence. Functions keep their names; a method takes the object first. Numbers are ℕ; `u64`
-- additions are reduced modulo 2 ^ 64. A chain is the list of its blocks, and a method that changes it
-- returns the new list. A fallible function answers `ok`, `err` or `panic`. The methods of the
-- handler and of the service take the tables and return the new ones, also with an error: what was
-- written stays written. Errors carry no texts. A HashMap is an association list and a HashSet a list
-- without repetitions, in the order of insertion. Of queued messages with the same time of the last
-- try, the queue takes the one that was added first; the database does not say. The queries of the
-- queue do not fail, and its counters of retries (`i32` in the code) stay below their small maximum.
--
-- Fuel. `add_loop` is given as many rounds as the Rust loop `1..difference_in_id + 1` has; the sum
-- leaves the 64-bit range only between the ids 0 and 2 ^ 64 - 1, and the ids of blocks count up from 1.
-- `retry_loop`, the loop of `send_retry_messages`, is given a number of rounds; more rounds than there
-- are pending messages are enough, because each round takes one of them out of the queue.
--
-- Parameters. `Platform`, `BillEnv`, `LedgerEnv`, `ServiceEnv` and `Network` are records of functions
-- for the code of other crates, for borsh's and JSON's encodings, and for sending. The answers of the
-- block explorer and of the company table are parameters where payments are checked. What a theorem
-- assumes of them is in `Laws` (Util/Crypto/Laws) and `ReadsBack` (Bill/Create/RoundTrip), or is a
-- parameter of its section; the sample platform of Tests keeps all of it.
--
-- Not modelled: of the bill service the recalculation of the cached bill and the notification, which
-- follow the blocks in `execute_bill_action`, issuing, timeouts and the calculation of the full bill;
-- the other services of crates/bcr-ebill-api; the sending of messages (`send_all_events`, which passes
-- over unknown recipients) and the notifications for the user; the tables of companies, contacts,
-- notifications and files; and the web and WASM front ends.
pub mod Prelude
pub mod Error
pub mod Platform
pub mod Util
pub mod Blockchain
pub mod Contact
pub mod Bill
pub mod Ledger
pub mod Handler
pub mod Service
pub mod Outbox
pub mod Tests
