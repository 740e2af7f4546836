-- ===== src/Bill/Action/Authority.antt =====
-- Who may act: what `validate` of core/src/bill/validation.rs requires of the signer.
use e_bill.Prelude.{◌≡◌, refl, arith, Result, ok, ◌>>=◌, map_err, eq_iff}
use e_bill.Error.{ValidationError, caller_is_not_holder}
use e_bill.Bill.Data.{
  BillAction, OfferToSellWaitingForPayment, RecourseWaitingForPayment, PaymentInfo,
  RecoursePaymentInfo,
}
use e_bill.Bill.Env.{BillEnv}
use e_bill.Bill.Chain.{
  is_last_request_to_recourse_block_waiting_for_payment,
  is_last_offer_to_sell_block_waiting_for_payment,
}
use e_bill.Bill.Action.{
  BillValidateActionData, holder_node_id, validate, validate_action, caller_is_holder,
  caller_is_buyer, caller_is_recoursee,
}

module _ (V : BillEnv) (s : BillValidateActionData) where
  abbrev offer_state : Result e_bill.Error.BlockchainError OfferToSellWaitingForPayment
  offer_state =
      is_last_offer_to_sell_block_waiting_for_payment V s.blockchain s.bill_keys s.timestamp

  abbrev recourse_state : Result e_bill.Error.BlockchainError RecourseWaitingForPayment
  recourse_state =
      is_last_request_to_recourse_block_waiting_for_payment V s.blockchain s.bill_keys s.timestamp

  abbrev pub IsHolder : Type 0
  IsHolder = s.signer_node_id ≡ holder_node_id s

  abbrev pub IsDrawee : Type 0
  IsDrawee = s.signer_node_id ≡ s.drawee_node_id

  -- The party that each action belongs to: the drawee, the holder, the buyer of the offer that
  -- waits for payment, or the party that recourse was requested from.
  abbrev pub Authorised : BillAction → Type 0
  Authorised BillAction.accept = IsDrawee
  Authorised BillAction.reject_acceptance = IsDrawee
  Authorised BillAction.reject_payment = IsDrawee
  Authorised BillAction.reject_buying =
      (info : PaymentInfo) × (offer_state ≡ ok (OfferToSellWaitingForPayment.waiting info))
      × (s.signer_node_id ≡ info.buyer.node_id)
  Authorised BillAction.reject_payment_for_recourse =
      (info : RecoursePaymentInfo) × (recourse_state ≡ ok (RecourseWaitingForPayment.waiting info))
      × (s.signer_node_id ≡ info.recoursee.node_id)
  Authorised BillAction.request_acceptance = IsHolder
  Authorised (BillAction.request_to_pay _) = IsHolder
  Authorised (BillAction.offer_to_sell _ _ _) = IsHolder
  Authorised (BillAction.sell _ _ _ _) = IsHolder
  Authorised (BillAction.endorse _) = IsHolder
  Authorised (BillAction.request_recourse _ _) = IsHolder
  Authorised (BillAction.recourse _ _ _ _) = IsHolder
  Authorised (BillAction.mint _ _ _) = IsHolder

  caller_is_holder-IsHolder : caller_is_holder V s ≡ ok tt → IsHolder
  unfolding caller_is_holder
  caller_is_holder-IsHolder h = ground (arith, eq_iff s.signer_node_id (holder_node_id s))

  caller_is_buyer_info :
      (r : Result e_bill.Error.BlockchainError OfferToSellWaitingForPayment)
      → (map_err e_bill.Error.ValidationError.blockchain r >>= caller_is_buyer V s) ≡ ok tt
      → (info : PaymentInfo) × (r ≡ ok (OfferToSellWaitingForPayment.waiting info))
        × (s.signer_node_id ≡ info.buyer.node_id)
  unfolding caller_is_buyer
  caller_is_buyer_info (ok (OfferToSellWaitingForPayment.waiting info)) h =
      (info, refl, ground (arith, eq_iff s.signer_node_id info.buyer.node_id))
  caller_is_buyer_info r h = absurd (ground arith)

  caller_is_recoursee_info :
      (r : Result e_bill.Error.BlockchainError RecourseWaitingForPayment)
      → (map_err e_bill.Error.ValidationError.blockchain r >>= caller_is_recoursee V s) ≡ ok tt
      → (info : RecoursePaymentInfo) × (r ≡ ok (RecourseWaitingForPayment.waiting info))
        × (s.signer_node_id ≡ info.recoursee.node_id)
  unfolding caller_is_recoursee
  caller_is_recoursee_info (ok (RecourseWaitingForPayment.waiting info)) h =
      (info, refl, ground (arith, eq_iff s.signer_node_id info.recoursee.node_id))
  caller_is_recoursee_info r h = absurd (ground arith)

  validate_action-Authorised : (a : BillAction) → validate_action V s a ≡ ok tt → Authorised a
  unfolding validate_action
  validate_action-Authorised BillAction.accept h =
      ground (arith, eq_iff s.drawee_node_id s.signer_node_id)
  validate_action-Authorised BillAction.reject_acceptance h =
      ground (arith, eq_iff s.signer_node_id s.drawee_node_id)
  validate_action-Authorised BillAction.reject_payment h =
      ground (arith, eq_iff s.signer_node_id s.drawee_node_id)
  validate_action-Authorised BillAction.reject_buying h =
      caller_is_buyer_info offer_state (ground arith)
  validate_action-Authorised BillAction.reject_payment_for_recourse h =
      caller_is_recoursee_info recourse_state (ground arith)
  validate_action-Authorised _ h = ground (arith, caller_is_holder-IsHolder)

  -- An action that passes validation was asked for by the party that it belongs to: accepting and
  -- rejecting acceptance or payment by the drawee, rejecting to buy by the buyer of the offer that
  -- waits for payment, rejecting recourse by the party that recourse was requested from, and all
  -- other actions by the holder.
  pub validate-Authorised : validate V s ≡ ok tt → Authorised s.bill_action
  unfolding validate
  validate-Authorised h = validate_action-Authorised s.bill_action (ground arith)
