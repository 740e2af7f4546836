-- ===== src/Outbox/Propagation.antt =====
-- The messages that are generated for the other nodes of a bill after an action: chain_event.rs, the
-- choice of events of default_service.rs, and propagation.rs of the bill service.
pub mod Blocks
pub mod Delivery
use e_bill.Prelude.{
  ℕ, String, Bool, true, false, ◌&&◌, not, Option, none, some, List, [], ◌∷◌, Result, ok, ◌>>=◌,
  map, find, if◌then◌else◌, ◌==◌, eqb, expect, map_err,
}
use e_bill.Error.{BlockchainError}
use e_bill.Blockchain.{get_latest_block, block_height}
use e_bill.Contact.{IdentityPublicData}
use e_bill.Bill.Data.{BillBlock, BillKeys, BillAction, RecourseReason}
use e_bill.Bill.Env.{BillEnv}
use e_bill.Bill.Block
use e_bill.Bill.Chain.{BillBlockchain, get_all_nodes_with_added_block_height}
use e_bill.Service.Fetch.{BitcreditBill}

-- core/src/notification.rs
pub data ActionType : Type 0 where
  buy_bill recourse_bill accept_bill check_bill pay_bill check_quote : ActionType

pub data BillEventType : Type 0 where
  bill_signed bill_accepted bill_acceptance_requested bill_acceptance_rejected
        bill_acceptance_timeout bill_acceptance_recourse bill_payment_requested
        bill_payment_rejected bill_payment_recourse bill_recourse_rejected bill_recourse_timeout
        bill_payment_timeout bill_sell_offered bill_buying_rejected bill_paid bill_recourse_paid
        bill_endorsed bill_sold bill_minting_requested bill_new_quote bill_quote_approved
        bill_block :
      BillEventType

unfoldable pub get_recourse_event_type : ActionType → Option BillEventType
get_recourse_event_type accept_bill = some bill_acceptance_recourse
get_recourse_event_type pay_bill = some bill_payment_recourse
get_recourse_event_type _ = none

unfoldable pub get_rejected_event_type : ActionType → Option BillEventType
get_rejected_event_type accept_bill = some bill_acceptance_rejected
get_rejected_event_type pay_bill = some bill_payment_rejected
get_rejected_event_type buy_bill = some bill_buying_rejected
get_rejected_event_type recourse_bill = some bill_recourse_rejected
get_rejected_event_type _ = none

-- crates/bcr-ebill-transport/src/event/bill_events.rs
pub record BillChainEventPayload : Type 0 where
  pub event_type : BillEventType
  pub bill_id : String
  pub action_type : Option ActionType
  pub sum : Option ℕ
  pub keys : Option BillKeys
  pub blocks : List BillBlock

-- A bill event for the node `node_id`.
pub record Event : Type 0 where
  pub node_id : String
  pub data' : BillChainEventPayload

pub record BillChainEvent : Type 0 where
  pub bill : BitcreditBill
  pub chain : BillBlockchain
  pub participants : List (String × ℕ)
  pub bill_keys : BillKeys
  pub new_blocks : Bool
  pub sender_node_id : String

-- `HashMap::get`
abbrev value_of : {A : Type 0} → Option (String × A) → Option A
value_of none = none
value_of (some e) = some e.1

abbrev pub get : {A : Type 0} → List (String × A) → String → Option A
get entries key = value_of (find (λ e. e.0 == key) entries)

abbrev or : {A : Type 0} → Option A → Option A → Option A
or none b = b
or (some a) b = some a

module _ (V : BillEnv) where
  open V use {platform}

  -- `BillChainEvent::new`
  unfoldable pub new_event :
      BitcreditBill
      → BillBlockchain
      → BillKeys
      → Bool
      → String
      → Result BlockchainError BillChainEvent
  new_event bill chain bill_keys new_blocks sender_node_id = do
    participants ← get_all_nodes_with_added_block_height V chain bill_keys
    ok (record {
      bill = bill;
      chain = chain;
      participants = participants;
      bill_keys = bill_keys;
      new_blocks = new_blocks;
      sender_node_id = sender_node_id;
    })

  module _ (event : BillChainEvent) where
    open event use {bill, chain, participants, bill_keys, new_blocks}

    -- `latest_block` panics on an empty chain.
    unfoldable pub get_blocks_for_node : {E : Type 0} → String → Result E (List BillBlock)
    get_blocks_for_node node_id =
        if not new_blocks then ok [] else elim (get participants node_id) [
          | none ↦ ok []
          | some height ↦
              if eqb height (block_height platform (Block.bill_block V) chain)
              then ok chain
              else (do
                latest_block ← get_latest_block platform (Block.bill_block V) chain
                ok (latest_block ∷ []))
        ]

    unfoldable pub get_keys_for_node : String → Option BillKeys
    get_keys_for_node node_id = if not new_blocks then none else elim (get participants node_id) [
      | none ↦ none
      | some height ↦
          if eqb height (block_height platform (Block.bill_block V) chain)
          then some bill_keys
          else none
    ]

    abbrev event_type_of : BillEventType → Option (BillEventType × ActionType) → BillEventType
    event_type_of base none = base
    event_type_of base (some o) = o.0

    abbrev action_of : Option ActionType → Option (BillEventType × ActionType) → Option ActionType
    action_of action none = action
    action_of action (some o) = some o.1

    unfoldable pub message_for :
        {E : Type 0}
        → List (String × (BillEventType × ActionType))
        → Option BillEventType
        → Option ActionType
        → String
        → Result E Event
    unfolding get_blocks_for_node get_keys_for_node
    message_for event_overrides event_type action node_id = do
      blocks ← get_blocks_for_node node_id
      let override = get event_overrides node_id
      ok (record {
        node_id = node_id;
        data' = record {
          event_type =
              event_type_of (elim event_type [ none ↦ BillEventType.bill_block | some t ↦ t ])
                override;
          bill_id = bill.id;
          action_type = action_of action override;
          sum = some bill.sum;
          keys = get_keys_for_node node_id;
          blocks = blocks;
        };
      })

    unfoldable pub messages_for :
        {E : Type 0}
        → List (String × (BillEventType × ActionType))
        → Option BillEventType
        → Option ActionType
        → List (String × ℕ)
        → Result E (List Event)
    unfolding message_for
    messages_for event_overrides event_type action [] = ok []
    messages_for event_overrides event_type action (p ∷ ps) = do
      message ← message_for event_overrides event_type action p.0
      messages ← messages_for event_overrides event_type action ps
      ok (message ∷ messages)

    unfoldable pub generate_action_messages :
        {E : Type 0}
        → List (String × (BillEventType × ActionType))
        → Option BillEventType
        → Option ActionType
        → Result E (List Event)
    unfolding messages_for
    generate_action_messages event_overrides event_type action =
        messages_for event_overrides event_type action participants

    abbrev directed : {E : Type 0} → String → BillEventType → ActionType → Result E (List Event)
    directed node_id event_type action =
        generate_action_messages ((node_id, (event_type, action)) ∷ []) none none

    -- `send_request_to_action_rejected_event` and `send_recourse_action_event`
    unfoldable pub rejected : {E : Type 0} → ActionType → Result E (List Event)
    rejected rejected_action = elim (get_rejected_event_type rejected_action) [
      | none ↦ ok []
      | some event_type ↦ generate_action_messages [] (some event_type) (some rejected_action)
    ]

    unfoldable pub recourse : {E : Type 0} → ActionType → IdentityPublicData → Result E (List Event)
    recourse action recoursee = elim (get_recourse_event_type action) [
      | none ↦ ok []
      | some event_type ↦
          generate_action_messages ((recoursee.node_id, (event_type, action)) ∷ [])
            (some BillEventType.bill_block) none
    ]

    unfoldable pub recourse_action : RecourseReason → ActionType
    recourse_action RecourseReason.accept = ActionType.accept_bill
    recourse_action (RecourseReason.pay _ _) = ActionType.pay_bill

    -- `bill.endorsee.as_ref().unwrap()`
    unfoldable pub endorsee : {E : Type 0} → Result E IdentityPublicData
    endorsee = expect bill.endorsee

    -- The one event of `send_request_to_mint_event`, without blocks and keys.
    unfoldable pub mint_request : IdentityPublicData → Event
    mint_request mint = record {
      node_id = mint.node_id;
      data' = record {
        event_type = bill_minting_requested;
        bill_id = bill.id;
        action_type = some ActionType.check_bill;
        sum = some bill.sum;
        keys = none;
        blocks = [];
      };
    }

    -- `match bill_action` of notify_for_block_action, with the functions of the notification
    -- service that it calls: the events that are to be sent.
    unfoldable pub events_for_action : {E : Type 0} → BillAction → Result E (List Event)
    unfolding rejected recourse recourse_action endorsee mint_request
    events_for_action BillAction.accept =
        directed bill.payee.node_id bill_accepted ActionType.check_bill
    events_for_action BillAction.request_acceptance =
        directed bill.drawee.node_id bill_acceptance_requested ActionType.accept_bill
    events_for_action (BillAction.request_to_pay _) =
        directed bill.drawee.node_id bill_payment_requested ActionType.pay_bill
    events_for_action (BillAction.request_recourse recoursee recourse_reason) =
        recourse (recourse_action recourse_reason) recoursee
    events_for_action (BillAction.recourse recoursee _ _ _) =
        directed recoursee.node_id bill_recourse_paid ActionType.check_bill
    events_for_action (BillAction.mint _ _ _) = do mint ← endorsee; ok (mint_request mint ∷ [])
    events_for_action (BillAction.offer_to_sell buyer _ _) =
        directed buyer.node_id bill_sell_offered ActionType.check_bill
    events_for_action (BillAction.sell buyer _ _ _) =
        directed buyer.node_id bill_sold ActionType.check_bill
    events_for_action (BillAction.endorse _) = do
      e ← endorsee
      directed e.node_id bill_endorsed ActionType.check_bill
    events_for_action BillAction.reject_acceptance = rejected ActionType.accept_bill
    events_for_action BillAction.reject_buying = rejected ActionType.buy_bill
    events_for_action BillAction.reject_payment = rejected ActionType.pay_bill
    events_for_action BillAction.reject_payment_for_recourse = rejected ActionType.recourse_bill
