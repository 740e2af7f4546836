-- ===== src/Bill/Action/Blocking.antt =====
-- A bill that waits for an answer or a payment: what `validate` of core/src/bill/validation.rs lets
-- pass until the deadline.
use e_bill.Prelude.{ℕ, ◌+◌, ◌≤◌, ◌≡◌, ◌⊎◌, inl, inr, false, some, arith, ok, last, eqb_refl}
use e_bill.Util.Date.{
  check_if_deadline_has_passed, recourse_deadline_seconds, payment_deadline_seconds,
}
use e_bill.Blockchain.{get_latest_block}
use e_bill.Bill.Data.{BillBlock, BillOpCode, BillAction, op_eq_refl}
use e_bill.Bill.Env.{BillEnv}
use e_bill.Bill.Chain.{
  recourse_of, offer_of, is_last_request_to_recourse_block_waiting_for_payment,
  is_last_offer_to_sell_block_waiting_for_payment,
}
use e_bill.Bill.Chain.Lookup.{last_with_op-last}
use e_bill.Bill.Action.{
  BillValidateActionData, validate, validate_state, validate_action, bill_is_blocked,
  bill_waiting_for_req_to_pay, bill_waiting_for_offer_to_sell, bill_waiting_for_recourse_payment,
  get_deadline_base_for_req_to_pay,
}
use e_bill.Bill.Action.Terminal.{latest_op-last}

-- What the latest block of a bill may wait for.
pub data Wait : Type 0 where
  for_payment for_purchase for_recourse : Wait

-- The actions that answer.
abbrev pub Answers : Wait → BillAction → Type 0
Answers for_payment BillAction.reject_payment = Unit
Answers for_purchase (BillAction.sell _ _ _ _) = Unit
Answers for_purchase BillAction.reject_buying = Unit
Answers for_recourse (BillAction.recourse _ _ _ _) = Unit
Answers for_recourse BillAction.reject_payment_for_recourse = Unit
Answers _ _ = ⊥

module _ (V : BillEnv) (s : BillValidateActionData) where
  -- The latest block is a request to pay, an offer to sell or a request for recourse, and the time
  -- of the action is not behind its deadline. For a request to pay the deadline counts from the
  -- end of the maturity date, if that is later than the request.
  pub data Waits : Wait → Type 0 where
    payment :
        (b : BillBlock) (base : ℕ)
        → last s.blockchain ≡ some b
        → b.op_code ≡ BillOpCode.request_to_pay
        → get_deadline_base_for_req_to_pay V b.timestamp s.maturity_date ≡ ok base
        → s.timestamp ≤ base + payment_deadline_seconds
        → Waits for_payment
    purchase :
        (b : BillBlock)
        → last s.blockchain ≡ some b
        → b.op_code ≡ BillOpCode.offer_to_sell
        → s.timestamp ≤ b.timestamp + payment_deadline_seconds
        → Waits for_purchase
    recourse :
        (b : BillBlock)
        → last s.blockchain ≡ some b
        → b.op_code ≡ BillOpCode.request_recourse
        → s.timestamp ≤ b.timestamp + recourse_deadline_seconds
        → Waits for_recourse

  not_passed :
      (t d : ℕ) → s.timestamp ≤ t + d → check_if_deadline_has_passed t s.timestamp d ≡ false
  unfolding check_if_deadline_has_passed
  not_passed t d h = ground arith

  payment_open : Waits for_payment → s.is_paid ≡ false → ¬ (bill_waiting_for_req_to_pay V s ≡ ok tt)
  unfolding bill_waiting_for_req_to_pay
  payment_open (payment b base h e d early) unpaid v = ground (
    arith,
    latest_op-last V s {b = b} h,
    op_eq_refl BillOpCode.request_to_pay,
    last_with_op-last V s.blockchain {b = b} BillOpCode.request_to_pay h e,
    not_passed base payment_deadline_seconds early,
  )

  purchase_open : Waits for_purchase → ¬ (bill_waiting_for_offer_to_sell V s ≡ ok tt)
  unfolding bill_waiting_for_offer_to_sell is_last_offer_to_sell_block_waiting_for_payment offer_of
      get_latest_block
  purchase_open (purchase b h e early) v = ground (
    arith,
    last_with_op-last V s.blockchain {b = b} BillOpCode.offer_to_sell h e,
    eqb_refl b.id,
    not_passed b.timestamp payment_deadline_seconds early,
  )

  recourse_open : Waits for_recourse → ¬ (bill_waiting_for_recourse_payment V s ≡ ok tt)
  unfolding bill_waiting_for_recourse_payment is_last_request_to_recourse_block_waiting_for_payment
      recourse_of get_latest_block
  recourse_open (recourse b h e early) v = ground (
    arith,
    last_with_op-last V s.blockchain {b = b} BillOpCode.request_recourse h e,
    eqb_refl b.id,
    not_passed b.timestamp recourse_deadline_seconds early,
  )

  payment_answer :
      (a : BillAction)
      → validate_action V s a ≡ ok tt
      → (bill_waiting_for_req_to_pay V s ≡ ok tt) ⊎ Answers for_payment a
  unfolding validate_action bill_is_blocked
  payment_answer BillAction.reject_payment v = inr tt
  payment_answer _ v = inl (ground arith)

  purchase_answer :
      (a : BillAction)
      → validate_action V s a ≡ ok tt
      → (bill_waiting_for_offer_to_sell V s ≡ ok tt) ⊎ Answers for_purchase a
  unfolding validate_action bill_is_blocked
  purchase_answer (BillAction.sell _ _ _ _) v = inr tt
  purchase_answer BillAction.reject_buying v = inr tt
  purchase_answer _ v = inl (ground arith)

  recourse_answer :
      (a : BillAction)
      → validate_action V s a ≡ ok tt
      → (bill_waiting_for_recourse_payment V s ≡ ok tt) ⊎ Answers for_recourse a
  unfolding validate_action bill_is_blocked
  recourse_answer (BillAction.recourse _ _ _ _) v = inr tt
  recourse_answer BillAction.reject_payment_for_recourse v = inr tt
  recourse_answer _ v = inl (ground arith)

  resolve : {P Q : Type 0} → ¬ P → P ⊎ Q → Q
  resolve no_p (inl p) = absurd (no_p p)
  resolve no_p (inr q) = q

  -- While a bill waits, only an answer to what it waits for passes validation: the rejection of a
  -- requested payment; a sale or its rejection after an offer to sell; the payment of recourse or
  -- its rejection after a request for recourse.
  pub validate-Waits : (w : Wait) → Waits w → validate V s ≡ ok tt → Answers w s.bill_action
  unfolding validate validate_state
  validate-Waits for_payment h v =
      let unpaid : s.is_paid ≡ false = ground arith in
      resolve (payment_open h unpaid) (payment_answer s.bill_action (ground arith))
  validate-Waits for_purchase h v =
      resolve (purchase_open h) (purchase_answer s.bill_action (ground arith))
  validate-Waits for_recourse h v =
      resolve (recourse_open h) (recourse_answer s.bill_action (ground arith))
