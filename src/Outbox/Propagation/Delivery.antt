-- ===== src/Outbox/Propagation/Delivery.antt =====
-- Which nodes hear of an action.
use e_bill.Prelude.{
  ℕ, ◌≡◌, refl, inl, inr, String, Option, none, some, List, [], ◌∷◌, ok, arith, Result-cases,
  Option-cases,
}
use e_bill.Error.{BlockchainError}
use e_bill.Contact.{IdentityPublicData}
use e_bill.Bill.Data.{BillAction, RecourseReason}
use e_bill.Bill.Env.{BillEnv}
use e_bill.Outbox.Propagation.{
  BillChainEvent, Event, BillEventType, ActionType, get_blocks_for_node, get_keys_for_node,
  message_for, messages_for, generate_action_messages, events_for_action, rejected, recourse,
  recourse_action, endorsee, mint_request, get_rejected_event_type, get_recourse_event_type,
}

module _ (V : BillEnv) (event : BillChainEvent) where
  -- One message for each participant, in their order, with the blocks and the keys for that node.
  abbrev pub Delivers : List (String × ℕ) → List Event → Type 0
  Delivers [] [] = Unit
  Delivers (p ∷ ps) (m ∷ ms) =
      (m.node_id ≡ p.0)
      × (get_blocks_for_node V event {E = BlockchainError} p.0 ≡ ok m.data'.blocks)
      × (m.data'.keys ≡ get_keys_for_node V event p.0)
      × Delivers ps ms
  Delivers _ _ = ⊥

  module _ (event_overrides : List (String × (BillEventType × ActionType)))
      (event_type : Option BillEventType) (action : Option ActionType) where
    messages_for-Delivers :
        (participants : List (String × ℕ)) {messages : List Event}
        → messages_for V event {E = BlockchainError} event_overrides event_type action participants
          ≡ ok messages
        → Delivers participants messages
    unfolding messages_for message_for
    messages_for-Delivers [] {messages} e = ground arith
    messages_for-Delivers (p ∷ ps) {messages} e =
        elim (Result-cases (get_blocks_for_node V event {E = BlockchainError} p.0)) [
          | inl (blocks, f) ↦
              elim (Result-cases
                (messages_for V event {E = BlockchainError} event_overrides event_type action ps)) [
                  | inl (rest, g) ↦ ground (arith, messages_for-Delivers ps {messages = rest} g)
                  | inr failed ↦ absurd (ground arith)
                ]
          | inr failed ↦ absurd (ground arith)
        ]

    generated-Delivers :
        {messages : List Event}
        → generate_action_messages V event {E = BlockchainError} event_overrides event_type action
          ≡ ok messages
        → Delivers event.participants messages
    unfolding generate_action_messages
    generated-Delivers {messages} e =
        messages_for-Delivers event.participants {messages = messages} e

  -- The single message of an action of minting, with neither blocks nor keys.
  abbrev pub MintOnly : List Event → Type 0
  MintOnly messages =
      (mint : IdentityPublicData) × (message : Event) × (event.bill.endorsee ≡ some mint)
      × (messages ≡ message ∷ [])
      × (message.node_id ≡ mint.node_id)
      × (message.data'.blocks ≡ [])
      × (message.data'.keys ≡ none)

  abbrev Reached : BillAction → List Event → Type 0
  Reached (BillAction.mint _ _ _) messages = MintOnly messages
  Reached _ messages = Delivers event.participants messages

  -- Of every action but minting a message is generated for each participant of the bill, with the
  -- blocks and keys that are meant for it. Of minting only one message is generated, for the mint,
  -- without blocks and keys.
  pub events_for_action-Reached :
      (action : BillAction) {messages : List Event}
      → events_for_action V event {E = BlockchainError} action ≡ ok messages
      → Reached action messages
  unfolding events_for_action rejected recourse recourse_action endorsee mint_request
      get_rejected_event_type get_recourse_event_type
  events_for_action-Reached BillAction.accept {messages} e =
      generated-Delivers _ none none {messages = messages} e
  events_for_action-Reached BillAction.request_acceptance {messages} e =
      generated-Delivers _ none none {messages = messages} e
  events_for_action-Reached (BillAction.request_to_pay _) {messages} e =
      generated-Delivers _ none none {messages = messages} e
  events_for_action-Reached (BillAction.request_recourse _ RecourseReason.accept) {messages} e =
      generated-Delivers _ _ none {messages = messages} e
  events_for_action-Reached (BillAction.request_recourse _ (RecourseReason.pay _ _)) {messages} e =
      generated-Delivers _ _ none {messages = messages} e
  events_for_action-Reached (BillAction.recourse _ _ _ _) {messages} e =
      generated-Delivers _ none none {messages = messages} e
  events_for_action-Reached (BillAction.mint _ _ _) {messages} e =
      elim (Option-cases event.bill.endorsee) [
        | inl f ↦ absurd (ground arith)
        | inr (mint, f) ↦ (mint, mint_request V event mint, f, ground arith, refl, refl, refl)
      ]
  events_for_action-Reached (BillAction.offer_to_sell _ _ _) {messages} e =
      generated-Delivers _ none none {messages = messages} e
  events_for_action-Reached (BillAction.sell _ _ _ _) {messages} e =
      generated-Delivers _ none none {messages = messages} e
  events_for_action-Reached (BillAction.endorse _) {messages} e =
      elim (Option-cases event.bill.endorsee) [
        | inl f ↦ absurd (ground arith)
        | inr (x, f) ↦
            generated-Delivers
              ((x.node_id, (BillEventType.bill_endorsed, ActionType.check_bill)) ∷ []) none none
              {messages = messages} (ground arith)
      ]
  events_for_action-Reached BillAction.reject_acceptance {messages} e =
      generated-Delivers _ _ _ {messages = messages} e
  events_for_action-Reached BillAction.reject_buying {messages} e =
      generated-Delivers _ _ _ {messages = messages} e
  events_for_action-Reached BillAction.reject_payment {messages} e =
      generated-Delivers _ _ _ {messages = messages} e
  events_for_action-Reached BillAction.reject_payment_for_recourse {messages} e =
      generated-Delivers _ _ _ {messages = messages} e
