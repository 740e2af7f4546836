-- ===== src/Bill/Action.antt =====
-- core/src/bill/validation.rs: which action on a bill is allowed, given its chain.
pub mod Authority
pub mod Terminal
pub mod Blocking
pub mod Terms
pub mod Recourse
use e_bill.Prelude.{
  ℕ, String, Bool, true, false, not, ◌||◌, ◌&&◌, Option, none, some, List, [], ◌∷◌, Result, ok, err,
  panic, ◌>>=◌, ◌>>◌, fail_if, map_err, if◌then◌else◌, any, ◌==◌, ltb, eqb,
}
use e_bill.Error
use e_bill.Error.{ValidationError}
use e_bill.Util.Date.{
  check_if_deadline_has_passed, date_string_to_timestamp, end_of_day_as_timestamp,
  payment_deadline_seconds, accept_deadline_seconds, recourse_deadline_seconds,
}
use e_bill.Blockchain.{get_latest_block}
use e_bill.Contact.{IdentityPublicData}
use e_bill.Bill.Data
use e_bill.Bill.Data.{
  BillBlock, BillOpCode, BillKeys, BillAction, RecourseReason, BillRecourseReasonBlockData, op_eq,
  OfferToSellWaitingForPayment, RecourseWaitingForPayment, PaymentInfo, RecoursePaymentInfo,
}
use e_bill.Bill.Env.{BillEnv}
use e_bill.Bill.Block.{bill_block}
use e_bill.Bill.Chain.{
  BillBlockchain, last_with_op, exists_with_op,
  is_last_request_to_recourse_block_waiting_for_payment,
  is_last_offer_to_sell_block_waiting_for_payment,
}
use e_bill.Bill.Endorsees.{PastEndorsee, get_past_endorsees_for_bill}

pub record BillValidateActionData : Type 0 where
  pub blockchain : BillBlockchain
  pub drawee_node_id : String
  pub payee_node_id : String
  pub endorsee_node_id : Option String
  pub maturity_date : String
  pub bill_keys : BillKeys
  pub timestamp : ℕ
  pub signer_node_id : String
  pub bill_action : BillAction
  pub is_paid : Bool

-- The endorsee holds the bill if there is one, else the payee.
unfoldable pub holder_node_id : BillValidateActionData → String
holder_node_id s = elim s.endorsee_node_id [ none ↦ s.payee_node_id | some endorsee ↦ endorsee ]

abbrev is_nil : {A : Type 0} → List A → Bool
is_nil [] = true
is_nil (x ∷ xs) = false

abbrev pub reason_data : RecourseReason → BillRecourseReasonBlockData
reason_data (RecourseReason.pay sum currency) = BillRecourseReasonBlockData.pay
reason_data RecourseReason.accept = BillRecourseReasonBlockData.accept

abbrev pub same_reason : BillRecourseReasonBlockData → BillRecourseReasonBlockData → Bool
same_reason BillRecourseReasonBlockData.accept BillRecourseReasonBlockData.accept = true
same_reason BillRecourseReasonBlockData.pay BillRecourseReasonBlockData.pay = true
same_reason _ _ = false

module _ (V : BillEnv) where
  open V use {platform}

  abbrev from_chain : {A : Type 0} → Result Error.BlockchainError A → Result ValidationError A
  from_chain r = map_err Error.ValidationError.blockchain r

  unfoldable pub get_deadline_base_for_req_to_pay : ℕ → String → Result ValidationError ℕ
  get_deadline_base_for_req_to_pay req_to_pay_ts bill_maturity_date = do
    maturity_date ← date_string_to_timestamp platform bill_maturity_date none
    maturity_date_end_of_day ← end_of_day_as_timestamp platform maturity_date
    ok (
        if ltb req_to_pay_ts maturity_date_end_of_day
        then maturity_date_end_of_day
        else req_to_pay_ts)

  module _ (s : BillValidateActionData) where
    open s use {
      blockchain, drawee_node_id, payee_node_id, endorsee_node_id, maturity_date, bill_keys,
      timestamp, signer_node_id, bill_action, is_paid,
    }

    -- `block_with_operation_code_exists`
    abbrev exists : BillOpCode → Bool
    exists op = exists_with_op V blockchain op

    unfoldable pub latest_op : Result ValidationError BillOpCode
    latest_op = do block ← get_latest_block platform (bill_block V) blockchain; ok block.op_code

    unfoldable pub payment_expired : BillBlock → Result ValidationError Bool
    payment_expired req_to_pay = do
      deadline_base ← get_deadline_base_for_req_to_pay req_to_pay.timestamp maturity_date
      ok (
          not is_paid
          && check_if_deadline_has_passed deadline_base timestamp payment_deadline_seconds)

    unfoldable pub expired_request_to_pay : Option BillBlock → Result ValidationError Unit
    unfolding payment_expired
    expired_request_to_pay none = ok tt
    expired_request_to_pay (some req_to_pay) = do
      passed ← payment_expired req_to_pay
      fail_if passed Error.bill_payment_expired

    unfoldable pub expired_request_to_accept : Option BillBlock → Result ValidationError Unit
    expired_request_to_accept none = ok tt
    expired_request_to_accept (some req_to_accept) =
        fail_if
          (not (exists BillOpCode.accept)
            && check_if_deadline_has_passed req_to_accept.timestamp timestamp
                accept_deadline_seconds)
          Error.bill_acceptance_expired

    -- The last case of `bill_can_only_be_recoursed`.
    unfoldable pub not_only_recourse : Result ValidationError Unit
    unfolding expired_request_to_pay expired_request_to_accept
    not_only_recourse = do
      fail_if (exists BillOpCode.reject_to_accept) Error.bill_was_rejected_to_accept
      fail_if (exists BillOpCode.reject_to_pay) Error.bill_was_rejected_to_pay
      expired_request_to_pay (last_with_op V blockchain BillOpCode.request_to_pay)
      expired_request_to_accept (last_with_op V blockchain BillOpCode.request_to_accept)

    unfoldable pub can_only_be_recoursed : BillAction → Result ValidationError Unit
    unfolding not_only_recourse
    can_only_be_recoursed (BillAction.recourse recoursee sum currency reason) = ok tt
    can_only_be_recoursed (BillAction.request_recourse recoursee reason) = ok tt
    can_only_be_recoursed BillAction.reject_payment_for_recourse = ok tt
    can_only_be_recoursed _ = not_only_recourse

    unfoldable pub bill_can_only_be_recoursed : Result ValidationError Unit
    unfolding can_only_be_recoursed
    bill_can_only_be_recoursed = can_only_be_recoursed bill_action

    abbrev offer_error : OfferToSellWaitingForPayment → Result ValidationError Unit
    offer_error (OfferToSellWaitingForPayment.waiting _) =
        err Error.bill_is_offered_to_sell_and_waiting_for_payment
    offer_error OfferToSellWaitingForPayment.not_waiting = ok tt

    unfoldable pub bill_waiting_for_offer_to_sell : Result ValidationError Unit
    bill_waiting_for_offer_to_sell = do
      state ←
          from_chain
            (is_last_offer_to_sell_block_waiting_for_payment V blockchain bill_keys timestamp)
      offer_error state

    abbrev recourse_error : RecourseWaitingForPayment → Result ValidationError Unit
    recourse_error (RecourseWaitingForPayment.waiting _) =
        err Error.bill_is_in_recourse_and_waiting_for_payment
    recourse_error RecourseWaitingForPayment.not_waiting = ok tt

    unfoldable pub bill_waiting_for_recourse_payment : Result ValidationError Unit
    bill_waiting_for_recourse_payment = do
      state ←
          from_chain
            (is_last_request_to_recourse_block_waiting_for_payment V blockchain bill_keys timestamp)
      recourse_error state

    unfoldable pub waiting_request_to_pay : Option BillBlock → Result ValidationError Unit
    waiting_request_to_pay none = ok tt
    waiting_request_to_pay (some req_to_pay) = do
      deadline_base ← get_deadline_base_for_req_to_pay req_to_pay.timestamp maturity_date
      fail_if
          (not is_paid
            && not (check_if_deadline_has_passed deadline_base timestamp payment_deadline_seconds))
          Error.bill_is_requested_to_pay_and_waiting_for_payment

    unfoldable pub bill_waiting_for_req_to_pay : Result ValidationError Unit
    unfolding latest_op waiting_request_to_pay
    bill_waiting_for_req_to_pay = do
      op ← latest_op
      if op_eq op BillOpCode.request_to_pay
          then waiting_request_to_pay (last_with_op V blockchain BillOpCode.request_to_pay)
          else ok tt

    unfoldable pub bill_is_blocked : Result ValidationError Unit
    bill_is_blocked = do
      bill_waiting_for_req_to_pay
      bill_waiting_for_offer_to_sell
      bill_waiting_for_recourse_payment
      ok tt

    unfoldable pub caller_is_holder : Result ValidationError Unit
    unfolding holder_node_id
    caller_is_holder = fail_if (not (signer_node_id == holder_node_id s)) Error.caller_is_not_holder

    -- The checks before the action is looked at.
    unfoldable pub not_recoursed_to_the_end : Result ValidationError Unit
    not_recoursed_to_the_end =
        if exists BillOpCode.recourse
        then (do
          past_holders ←
              from_chain (get_past_endorsees_for_bill V blockchain bill_keys signer_node_id)
          fail_if (is_nil past_holders) Error.bill_was_recoursed_to_the_end)
        else ok tt

    unfoldable pub recourse_request_not_expired : Option BillBlock → Result ValidationError Unit
    unfolding latest_op
    recourse_request_not_expired none = ok tt
    recourse_request_not_expired (some req_to_recourse) = do
      op ← latest_op
      fail_if
          (op_eq BillOpCode.request_recourse op
            && check_if_deadline_has_passed req_to_recourse.timestamp timestamp
                recourse_deadline_seconds)
          Error.bill_request_to_recourse_expired

    unfoldable pub validate_state : Result ValidationError Unit
    unfolding not_recoursed_to_the_end recourse_request_not_expired
    validate_state = do
      fail_if (exists BillOpCode.reject_to_pay_recourse) Error.bill_was_rejected_to_recourse
      not_recoursed_to_the_end
      recourse_request_not_expired (last_with_op V blockchain BillOpCode.request_recourse)
      fail_if is_paid Error.bill_already_paid

    -- A request to accept that expired or was rejected.
    unfoldable pub acceptance_failed : Option BillBlock → Result ValidationError Unit
    acceptance_failed (some req_to_accept) =
        fail_if
          (not (
              check_if_deadline_has_passed req_to_accept.timestamp timestamp
                accept_deadline_seconds)
            && not (exists BillOpCode.reject_to_accept))
          Error.bill_request_to_accept_did_not_expire_and_was_not_rejected
    acceptance_failed none =
        fail_if (not (exists BillOpCode.reject_to_accept))
          Error.bill_request_to_accept_did_not_expire_and_was_not_rejected

    -- A request to pay that expired or was rejected.
    unfoldable pub payment_failed : Option BillBlock → Result ValidationError Unit
    payment_failed (some req_to_pay) = do
      deadline_base ← get_deadline_base_for_req_to_pay req_to_pay.timestamp maturity_date
      fail_if
          (not (check_if_deadline_has_passed deadline_base timestamp payment_deadline_seconds)
            && not (exists BillOpCode.reject_to_pay))
          Error.bill_request_to_pay_did_not_expire_and_was_not_rejected
    payment_failed none = err Error.bill_was_not_requested_to_pay

    unfoldable pub recourse_reason_holds : RecourseReason → Result ValidationError Unit
    unfolding acceptance_failed payment_failed
    recourse_reason_holds RecourseReason.accept =
        acceptance_failed (last_with_op V blockchain BillOpCode.request_to_accept)
    recourse_reason_holds (RecourseReason.pay _ _) =
        payment_failed (last_with_op V blockchain BillOpCode.request_to_pay)

    unfoldable pub recourse_matches :
        IdentityPublicData
        → ℕ
        → String
        → RecourseReason
        → RecourseWaitingForPayment
        → Result ValidationError Unit
    recourse_matches recoursee sum currency reason
          (RecourseWaitingForPayment.waiting payment_info) =
        fail_if
          (not (eqb payment_info.sum sum)
            || not (payment_info.currency == currency)
            || not (payment_info.recoursee.node_id == recoursee.node_id)
            || not (payment_info.recourser.node_id == signer_node_id)
            || not (same_reason payment_info.reason (reason_data reason)))
          Error.bill_recourse_data_invalid
    recourse_matches recoursee sum currency reason RecourseWaitingForPayment.not_waiting =
        err Error.bill_is_not_requested_to_recourse_and_waiting_for_payment

    -- `if let Ok(Yes(payment_info))`: an error of the chain counts as no offer.
    unfoldable pub sell_matches :
        IdentityPublicData
        → ℕ
        → String
        → String
        → Result Error.BlockchainError OfferToSellWaitingForPayment
        → Result ValidationError Unit
    sell_matches buyer sum currency payment_address
          (ok (OfferToSellWaitingForPayment.waiting payment_info)) =
        fail_if
          (not (eqb payment_info.sum sum)
            || not (payment_info.currency == currency)
            || not (payment_info.payment_address == payment_address)
            || not (payment_info.buyer.node_id == buyer.node_id)
            || not (payment_info.seller.node_id == signer_node_id))
          Error.bill_sell_data_invalid
    sell_matches buyer sum currency payment_address (ok OfferToSellWaitingForPayment.not_waiting) =
        err Error.bill_is_not_offer_to_sell_waiting_for_payment
    sell_matches buyer sum currency payment_address (err e) =
        err Error.bill_is_not_offer_to_sell_waiting_for_payment
    sell_matches buyer sum currency payment_address panic = panic

    unfoldable pub caller_is_buyer : OfferToSellWaitingForPayment → Result ValidationError Unit
    caller_is_buyer (OfferToSellWaitingForPayment.waiting payment_info) =
        fail_if (not (signer_node_id == payment_info.buyer.node_id)) Error.caller_is_not_buyer
    caller_is_buyer OfferToSellWaitingForPayment.not_waiting =
        err Error.bill_was_not_offered_to_sell

    unfoldable pub caller_is_recoursee : RecourseWaitingForPayment → Result ValidationError Unit
    caller_is_recoursee (RecourseWaitingForPayment.waiting payment_info) =
        fail_if (not (signer_node_id == payment_info.recoursee.node_id))
          Error.caller_is_not_recoursee
    caller_is_recoursee RecourseWaitingForPayment.not_waiting =
        err Error.bill_was_not_requested_to_recourse

    -- `match &self.bill_action`
    unfoldable pub validate_action : BillAction → Result ValidationError Unit
    validate_action BillAction.accept = do
      bill_is_blocked
      bill_can_only_be_recoursed
      fail_if (exists BillOpCode.accept) Error.bill_already_accepted
      fail_if (not (drawee_node_id == signer_node_id)) Error.caller_is_not_drawee
    validate_action BillAction.request_acceptance = do
      bill_is_blocked
      bill_can_only_be_recoursed
      fail_if (exists BillOpCode.accept) Error.bill_already_accepted
      fail_if (exists BillOpCode.request_to_accept) Error.bill_already_requested_to_accept
      caller_is_holder
    validate_action (BillAction.request_to_pay _) = do
      bill_is_blocked
      bill_can_only_be_recoursed
      maturity_date_start ← date_string_to_timestamp platform maturity_date none
      fail_if (ltb timestamp maturity_date_start) Error.bill_requested_to_pay_before_maturity_date
      caller_is_holder
    validate_action (BillAction.request_recourse recoursee recourse_reason) = do
      bill_is_blocked
      caller_is_holder
      past_holders ← from_chain (get_past_endorsees_for_bill V blockchain bill_keys signer_node_id)
      fail_if
          (not (
            any (λ (h : PastEndorsee). h.pay_to_the_order_of.node_id == recoursee.node_id)
              past_holders))
          Error.recoursee_not_past_holder
      recourse_reason_holds recourse_reason
    validate_action (BillAction.recourse recoursee sum currency reason) = do
      bill_waiting_for_req_to_pay
      bill_waiting_for_offer_to_sell
      caller_is_holder
      state ←
          from_chain
            (is_last_request_to_recourse_block_waiting_for_payment V blockchain bill_keys timestamp)
      recourse_matches recoursee sum currency reason state
    validate_action (BillAction.mint _ _ _) = do
      bill_is_blocked
      bill_can_only_be_recoursed
      fail_if (not (exists BillOpCode.accept)) Error.bill_not_accepted
      caller_is_holder
    validate_action (BillAction.offer_to_sell _ _ _) = do
      bill_is_blocked
      bill_can_only_be_recoursed
      caller_is_holder
    validate_action (BillAction.sell buyer sum currency payment_address) = do
      bill_waiting_for_recourse_payment
      bill_waiting_for_req_to_pay
      bill_can_only_be_recoursed
      caller_is_holder
      sell_matches buyer sum currency payment_address
          (is_last_offer_to_sell_block_waiting_for_payment V blockchain bill_keys timestamp)
    validate_action (BillAction.endorse _) = do
      bill_is_blocked
      bill_can_only_be_recoursed
      caller_is_holder
    validate_action BillAction.reject_acceptance = do
      bill_is_blocked
      bill_can_only_be_recoursed
      fail_if (not (signer_node_id == drawee_node_id)) Error.caller_is_not_drawee
      fail_if (exists BillOpCode.accept) Error.bill_already_accepted
    validate_action BillAction.reject_buying = do
      bill_waiting_for_recourse_payment
      bill_waiting_for_req_to_pay
      bill_can_only_be_recoursed
      op ← latest_op
      fail_if (op_eq BillOpCode.reject_to_buy op) Error.request_already_rejected
      state ←
          from_chain
            (is_last_offer_to_sell_block_waiting_for_payment V blockchain bill_keys timestamp)
      caller_is_buyer state
    validate_action BillAction.reject_payment = do
      bill_waiting_for_offer_to_sell
      bill_waiting_for_recourse_payment
      bill_can_only_be_recoursed
      fail_if (not (signer_node_id == drawee_node_id)) Error.caller_is_not_drawee
      fail_if (not (exists BillOpCode.request_to_pay)) Error.bill_was_not_requested_to_pay
    validate_action BillAction.reject_payment_for_recourse = do
      bill_waiting_for_offer_to_sell
      bill_waiting_for_req_to_pay
      state ←
          from_chain
            (is_last_request_to_recourse_block_waiting_for_payment V blockchain bill_keys timestamp)
      caller_is_recoursee state

    -- `BillValidateActionData::validate`
    unfoldable pub validate : Result ValidationError Unit
    validate = do validate_state; validate_action bill_action
