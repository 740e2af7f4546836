-- ===== src/Outbox/Queue.antt =====
-- The queue of messages that could not be sent: nostr_send_queue.rs, and `send_retry_messages` of
-- default_service.rs. The database answers every query; a payload is its JSON text, and `from_value`
-- reads it. `now` is the time at which the row of a message is written.
pub mod Rows
pub mod Looped
pub mod Retried
pub mod Settled
use e_bill.Prelude.{
  ℕ, zero, suc, ◌+◌, String, Bool, true, false, ◌&&◌, not, Option, none, some, List, [], ◌∷◌, ◌++◌,
  map, any, filter, first, if◌then◌else◌, ◌==◌, ltb, leb,
}
use e_bill.Contact.{IdentityPublicData}

pub record NostrQueuedMessage : Type 0 where
  pub id : String
  pub sender_id : String
  pub node_id : String
  pub payload : String

pub record QueuedMessageDb : Type 0 where
  pub id : String
  pub sender_id : String
  pub node_id : String
  pub payload : String
  pub created : ℕ
  pub last_try : ℕ
  pub num_retries : ℕ
  pub max_retries : ℕ
  pub completed : Bool
  pub processing : Bool

-- `QueuedMessageDb::from`
abbrev pub from : ℕ → NostrQueuedMessage → ℕ → QueuedMessageDb
from now value max_retries = record {
  id = value.id;
  sender_id = value.sender_id;
  node_id = value.node_id;
  payload = value.payload;
  created = now;
  last_try = 0;
  num_retries = 0;
  max_retries = max_retries;
  completed = false;
  processing = false;
}

-- `From<QueuedMessageDb> for NostrQueuedMessage`
abbrev pub to_message : QueuedMessageDb → NostrQueuedMessage
to_message value = record {
  id = value.id;
  sender_id = value.sender_id;
  node_id = value.node_id;
  payload = value.payload;
}

abbrev pub Table : Type 0
Table = List QueuedMessageDb

-- `create` fails where the record is there already.
unfoldable pub add_message : ℕ → NostrQueuedMessage → ℕ → Table → Bool × Table
add_message now message max_retries table =
    if any (λ (r : QueuedMessageDb). r.id == message.id) table
    then (false, table)
    else (true, table ++ from now message max_retries ∷ [])

abbrev pub pending : QueuedMessageDb → Bool
pending r = not r.completed && not r.processing

-- `ORDER BY last_try ASC`; of rows with the same time, the one that was added first comes first.
unfoldable pub insert_by_last_try : QueuedMessageDb → Table → Table
insert_by_last_try r [] = r ∷ []
insert_by_last_try r (x ∷ xs) =
    let rest = insert_by_last_try r xs in if leb r.last_try x.last_try then r ∷ x ∷ xs else x ∷ rest

unfoldable pub order_by_last_try : Table → Table
unfolding insert_by_last_try
order_by_last_try [] = []
order_by_last_try (r ∷ rs) = insert_by_last_try r (order_by_last_try rs)

unfoldable pub take : ℕ → Table → Table
take zero rows = []
take (suc n) [] = []
take (suc n) (r ∷ rs) = r ∷ take n rs

-- The row with this id, changed.
abbrev pub update_row : (QueuedMessageDb → QueuedMessageDb) → String → Table → Table
update_row f id table = map (λ (r : QueuedMessageDb). if r.id == id then f r else r) table

unfoldable pub set_processing : Table → Table → Table
set_processing items table =
    map
      (λ (r : QueuedMessageDb).
        if any (λ (i : QueuedMessageDb). r.id == i.id) items
        then record r { processing = true }
        else r)
      table

-- The messages that are ready to be tried again, and the table in which they are being processed.
unfoldable pub get_retry_messages : ℕ → Table → List NostrQueuedMessage × Table
unfolding take order_by_last_try set_processing
get_retry_messages limit table =
    let items = take limit (order_by_last_try (filter pending table)) in
    (map to_message items, set_processing items table)

abbrev pub failed : (String → ℕ) → QueuedMessageDb → QueuedMessageDb
failed now msg = record msg {
  num_retries = msg.num_retries + 1;
  last_try = now msg.id;
  completed = leb msg.max_retries (msg.num_retries + 1);
  processing = false;
}

unfoldable pub fail_retry : (String → ℕ) → String → Table → Table
fail_retry now id table = update_row (failed now) id table

abbrev pub succeeded : (String → ℕ) → QueuedMessageDb → QueuedMessageDb
succeeded now msg = record msg { completed = true; last_try = now msg.id; processing = false }

unfoldable pub succeed_retry : (String → ℕ) → String → Table → Table
succeed_retry now id table = update_row (succeeded now) id table

-- The JSON envelope, of which only the recipient is looked at here.
pub record EventEnvelope : Type 0 where
  pub event_type : String
  pub version : String
  pub node_id : String
  pub data' : String

-- The nodes that this node sends through, each with whether a message arrives, the contacts, and
-- the reading of JSON.
pub record Network : Type 0 where
  pub notification_transport : String → Option (IdentityPublicData → EventEnvelope → Bool)
  pub get_identity_by_node_id : String → Option IdentityPublicData
  pub from_value : String → Option EventEnvelope

module _ (N : Network) where
  open N use {notification_transport, get_identity_by_node_id, from_value}

  send_to :
      Option (IdentityPublicData → EventEnvelope → Bool)
      → Option IdentityPublicData
      → EventEnvelope
      → Bool
  send_to (some send) (some identity) message = send identity message
  send_to (some send) none message = true
  send_to none identity message = true

  -- Whether the call answers `Ok`.
  unfoldable pub send_retry_message : String → String → EventEnvelope → Bool
  unfolding send_to
  send_retry_message sender node_id message =
      send_to (notification_transport sender) (get_identity_by_node_id node_id) message

  -- One round of the loop with a message: the table and the ids that failed so far.
  unfoldable pub try_message :
      (String → ℕ)
      → NostrQueuedMessage
      → Option EventEnvelope
      → Table
      → List String
      → Table × List String
  unfolding send_retry_message
  try_message now queued_message none table failed_ids = (table, failed_ids)
  try_message now queued_message (some message) table failed_ids =
      if send_retry_message queued_message.sender_id message.node_id message
      then (succeed_retry now queued_message.id table, failed_ids)
      else (table, failed_ids ++ queued_message.id ∷ [])

  -- The loop `while let Ok(Some(queued_message))`, with `rounds` rounds left.
  unfoldable pub retry_loop : ℕ → (String → ℕ) → Table → List String → Option (Table × List String)
  unfolding try_message get_retry_messages
  retry_loop zero now table failed_ids = none
  retry_loop (suc rounds) now table failed_ids =
      let (messages, table') = get_retry_messages 1 table in
      elim (first messages) [
        | none ↦ some (table', failed_ids)
        | some queued_message ↦
            let (table'', failed_ids') =
              try_message now queued_message (from_value queued_message.payload) table'
                failed_ids in
            retry_loop rounds now table'' failed_ids'
      ]

  -- `for failed in failed_ids`
  unfoldable pub fail_all : (String → ℕ) → List String → Table → Table
  unfolding fail_retry
  fail_all now [] table = table
  fail_all now (id ∷ ids) table = fail_all now ids (fail_retry now id table)

  unfoldable pub send_retry_messages : ℕ → (String → ℕ) → Table → Option Table
  unfolding retry_loop fail_all
  send_retry_messages rounds now table = elim (retry_loop rounds now table []) [
    | none ↦ none
    | some (table', failed_ids) ↦ some (fail_all now failed_ids table')
  ]
