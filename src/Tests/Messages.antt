-- ===== src/Tests/Messages.antt =====
-- The messages of an endorsement, and two messages that wait to be sent again.
use e_bill.Prelude.{
  ℕ, ◌≡◌, refl, String, true, false, none, some, List, [], ◌∷◌, ok, any, ◌==◌, All, arith, inr, map,
  if◌then◌else◌,
}
use e_bill.Error.{BlockchainError}
use e_bill.Util.Crypto
use e_bill.Blockchain
use e_bill.Bill.Data.{BillAction, to_public_data}
use e_bill.Bill.Block.{get_nodes_from_block}
use e_bill.Bill.Chain.{get_all_nodes_with_added_block_height}
use e_bill.Outbox.Queue.{QueuedMessageDb, Table, Network, send_retry_messages}
use e_bill.Outbox.Queue.Looped.{retried}
use e_bill.Outbox.Queue.Retried.{send_retry_messages-retried}
use e_bill.Outbox.Queue.Settled.{Runs, Due, run_all, run_all-completes}
use e_bill.Outbox.Propagation.{
  BillChainEvent, BillEventType, ActionType, Event, get, new_event, get_blocks_for_node,
  get_keys_for_node, events_for_action,
}
use e_bill.Outbox.Propagation.Blocks.{Named, get_blocks_for_node_lem}
use e_bill.Outbox.Propagation.Delivery.{Delivers, events_for_action-Reached}
use e_bill.Service.Fetch.{BitcreditBill}
use e_bill.Tests.Sample.{env, party}
use e_bill.Tests.Blocks.{issued, endorsed, keys}
use e_bill.Tests.Execution.{current}

abbrev endorsed_bill : BitcreditBill
endorsed_bill = record current { endorsee = some (to_public_data (party 5)) }

-- Drawer 1, payee 3 and drawee 2 are in the bill since its first block; 5 comes with the second.
abbrev before : List (String × ℕ)
before = ("aab", 1) ∷ ("aaab", 1) ∷ ("ab", 1) ∷ []

abbrev event : BillChainEvent
event = record {
  bill = endorsed_bill;
  chain = issued ∷ endorsed ∷ [];
  participants = ("aab", 1) ∷ ("aaab", 1) ∷ ("ab", 1) ∷ ("aaaaab", 2) ∷ [];
  bill_keys = keys;
  new_blocks = true;
  sender_node_id = "aaab";
}

before_known : get_all_nodes_with_added_block_height env (issued ∷ []) keys ≡ ok before
unfolding get_all_nodes_with_added_block_height e_bill.Bill.Chain.heights_from
    e_bill.Bill.Chain.add_nodes get_nodes_from_block e_bill.Bill.Block.insert
    e_bill.Bill.Block.get_decrypted_block_bytes Crypto.decrypt_ecies Crypto.from_private_key
    Crypto.load_keypair
before_known = refl

named_here : get_nodes_from_block env endorsed keys ≡ ok ("aaab" ∷ "aaaaab" ∷ [])
unfolding get_nodes_from_block e_bill.Bill.Block.insert e_bill.Bill.Block.get_decrypted_block_bytes
    Crypto.decrypt_ecies Crypto.from_private_key Crypto.load_keypair
named_here = refl

event_made : new_event env endorsed_bill (issued ∷ endorsed ∷ []) keys true "aaab" ≡ ok event
unfolding new_event get_all_nodes_with_added_block_height e_bill.Bill.Chain.heights_from
    e_bill.Bill.Chain.add_nodes get_nodes_from_block e_bill.Bill.Block.insert
    e_bill.Bill.Block.get_decrypted_block_bytes Crypto.decrypt_ecies Crypto.from_private_key
    Crypto.load_keypair
event_made = refl

-- The endorsee, node 5.
get_blocks_for_node_example :
    ((h : ℕ)
      → get before "aaaaab" ≡ some h
      → (get_blocks_for_node env event {E = BlockchainError} "aaaaab" ≡ ok (endorsed ∷ []))
        × (get_keys_for_node env event "aaaaab" ≡ none))
    × (get before "aaaaab" ≡ none
        → ("aaaaab" == "") ≡ false
        → Named "aaaaab" ("aaab" ∷ "aaaaab" ∷ [])
        → (get_blocks_for_node env event {E = BlockchainError} "aaaaab"
            ≡ ok (issued ∷ endorsed ∷ []))
          × (get_keys_for_node env event "aaaaab" ≡ some keys))
    × (get before "aaaaab" ≡ none
        → any (λ n. "aaaaab" == n) ("aaab" ∷ "aaaaab" ∷ []) ≡ false
        → (get_blocks_for_node env event {E = BlockchainError} "aaaaab" ≡ ok [])
          × (get_keys_for_node env event "aaaaab" ≡ none))
get_blocks_for_node_example =
    get_blocks_for_node_lem env endorsed_bill (issued ∷ []) endorsed keys "aaab" "aaaaab"
      before_known named_here event_made

abbrev offline : Network
offline = record {
  notification_transport = λ sender. some (λ i m. false);
  get_identity_by_node_id = λ node. some (to_public_data (party 1));
  from_value = λ payload.
      if payload == ""
      then none
      else some (record { event_type = "Bill"; version = "1.0"; node_id = "ab"; data' = payload });
}

abbrev row : String → String → QueuedMessageDb
row id payload = record {
  id = id;
  sender_id = "aaab";
  node_id = "ab";
  payload = payload;
  created = 1;
  last_try = 0;
  num_retries = 0;
  max_retries = 2;
  completed = false;
  processing = false;
}

abbrev table : Table
table = row "x" "{}" ∷ row "y" "" ∷ []

send_retry_messages-retried_example :
    send_retry_messages offline 3 (λ id. 7) table ≡ some (map (retried offline (λ id. 7)) table)
send_retry_messages-retried_example =
    send_retry_messages-retried offline (λ id. 7) 3 table ((refl, tt), (tt, tt)) (omega arith)

abbrev runs : Runs
runs = (offline, (λ id. 7)) ∷ (offline, (λ id. 9)) ∷ []

due : Due runs (row "x" "{}")
due = (refl, ((_, refl), ((_, refl), tt)), inr (omega arith, omega arith))

run_all-completes_example :
    (table' : Table) × (run_all runs (row "x" "{}" ∷ []) ≡ some table')
    × All (λ r. r.completed ≡ true) table'
run_all-completes_example = run_all-completes runs (row "x" "{}" ∷ []) (tt, tt) (due, tt)

-- The endorsement for a node that is in the bill already.
abbrev latest_for : String → Event
latest_for node = record {
  node_id = node;
  data' = record {
    event_type = BillEventType.bill_block;
    bill_id = "aaaaaaab";
    action_type = none;
    sum = some 500;
    keys = none;
    blocks = endorsed ∷ [];
  };
}

abbrev for_endorsee : Event
for_endorsee = record {
  node_id = "aaaaab";
  data' = record {
    event_type = BillEventType.bill_endorsed;
    bill_id = "aaaaaaab";
    action_type = some ActionType.check_bill;
    sum = some 500;
    keys = some keys;
    blocks = issued ∷ endorsed ∷ [];
  };
}

abbrev messages : List Event
messages = latest_for "aab" ∷ latest_for "aaab" ∷ latest_for "ab" ∷ for_endorsee ∷ []

messages_made :
    events_for_action env event {E = BlockchainError}
      (BillAction.endorse (to_public_data (party 5)))
    ≡ ok messages
unfolding events_for_action e_bill.Outbox.Propagation.endorsee
    e_bill.Outbox.Propagation.generate_action_messages e_bill.Outbox.Propagation.messages_for
    e_bill.Outbox.Propagation.message_for get_blocks_for_node get_keys_for_node
    Blockchain.block_height Blockchain.get_latest_block
messages_made = refl

events_for_action-Reached_example : Delivers env event event.participants messages
events_for_action-Reached_example =
    events_for_action-Reached env event (BillAction.endorse (to_public_data (party 5)))
      {messages = messages} messages_made
