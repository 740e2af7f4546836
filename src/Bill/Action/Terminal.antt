-- ===== src/Bill/Action/Terminal.antt =====
-- The states of a bill from which `validate` of core/src/bill/validation.rs lets nothing pass, or
-- nothing but recourse.
use e_bill.Prelude.{
  ℕ, ◌+◌, ◌<◌, ◌≡◌, ◌⊎◌, inl, inr, refl, true, false, some, arith, ok, err, last, get_elem?,
}
use e_bill.Error.{ValidationError, bill_was_rejected_to_recourse}
use e_bill.Util.Date.{
  check_if_deadline_has_passed_iff, recourse_deadline_seconds, payment_deadline_seconds,
  accept_deadline_seconds,
}
use e_bill.Blockchain.{get_latest_block}
use e_bill.Bill.Data.{BillBlock, BillOpCode, BillAction, op_eq_refl}
use e_bill.Bill.Env.{BillEnv}
use e_bill.Bill.Chain.{last_with_op, exists_with_op}
use e_bill.Bill.Chain.Lookup.{exists_with_op-get_elem?, last_with_op-last}
use e_bill.Bill.Action.{
  BillValidateActionData, validate, validate_state, validate_action, latest_op,
  recourse_request_not_expired, bill_can_only_be_recoursed, can_only_be_recoursed,
  not_only_recourse, expired_request_to_pay, expired_request_to_accept,
  get_deadline_base_for_req_to_pay,
}

-- The actions of recourse.
abbrev pub IsRecourse : BillAction → Type 0
IsRecourse (BillAction.recourse _ _ _ _) = Unit
IsRecourse (BillAction.request_recourse _ _) = Unit
IsRecourse BillAction.reject_payment_for_recourse = Unit
IsRecourse _ = ⊥

module _ (V : BillEnv) (s : BillValidateActionData) where
  -- The bill is finished: recourse was rejected, or it is paid, or its latest block requests
  -- recourse and the deadline for it has passed.
  pub data Finished : Type 0 where
    rejected :
        (i : ℕ) (b : BillBlock)
        → get_elem? s.blockchain i ≡ some b
        → b.op_code ≡ BillOpCode.reject_to_pay_recourse
        → Finished
    paid : s.is_paid ≡ true → Finished
    expired :
        (b : BillBlock)
        → last s.blockchain ≡ some b
        → b.op_code ≡ BillOpCode.request_recourse
        → b.timestamp + recourse_deadline_seconds < s.timestamp
        → Finished

  pub latest_op-last : {b : BillBlock} → last s.blockchain ≡ some b → latest_op V s ≡ ok b.op_code
  unfolding latest_op get_latest_block
  latest_op-last h = ground arith

  expired_refused :
      (b : BillBlock)
      → last s.blockchain ≡ some b
      → b.op_code ≡ BillOpCode.request_recourse
      → b.timestamp + recourse_deadline_seconds < s.timestamp
      → recourse_request_not_expired V s (some b)
        ≡ err e_bill.Error.bill_request_to_recourse_expired
  unfolding recourse_request_not_expired
  expired_refused b h e late = ground (
    arith,
    latest_op-last {b = b} h,
    op_eq_refl BillOpCode.request_recourse,
    (check_if_deadline_has_passed_iff b.timestamp s.timestamp recourse_deadline_seconds).1 late,
  )

  -- Of a finished bill no action passes validation, whoever asks for it.
  pub validate-Finished : Finished → ¬ (validate V s ≡ ok tt)
  unfolding validate validate_state
  validate-Finished (rejected i b h e) v = ground (
    arith,
    exists_with_op-get_elem? V s.blockchain i {b = b} BillOpCode.reject_to_pay_recourse h e,
  )
  validate-Finished (paid h) v = ground arith
  validate-Finished (expired b h e late) v = ground (
    arith,
    last_with_op-last V s.blockchain {b = b} BillOpCode.request_recourse h e,
    expired_refused b h e late,
  )

  -- The bill is open to recourse alone: acceptance or payment was rejected, or the latest request
  -- to pay or an unanswered request to accept has run out.
  pub data OnlyRecourse : Type 0 where
    acceptance_rejected :
        (i : ℕ) (b : BillBlock)
        → get_elem? s.blockchain i ≡ some b
        → b.op_code ≡ BillOpCode.reject_to_accept
        → OnlyRecourse
    payment_rejected :
        (i : ℕ) (b : BillBlock)
        → get_elem? s.blockchain i ≡ some b
        → b.op_code ≡ BillOpCode.reject_to_pay
        → OnlyRecourse
    payment_expired :
        (b : BillBlock) (base : ℕ)
        → last_with_op V s.blockchain BillOpCode.request_to_pay ≡ some b
        → get_deadline_base_for_req_to_pay V b.timestamp s.maturity_date ≡ ok base
        → base + payment_deadline_seconds < s.timestamp
        → OnlyRecourse
    acceptance_expired :
        (b : BillBlock)
        → last_with_op V s.blockchain BillOpCode.request_to_accept ≡ some b
        → exists_with_op V s.blockchain BillOpCode.accept ≡ false
        → b.timestamp + accept_deadline_seconds < s.timestamp
        → OnlyRecourse

  not_only_recourse-OnlyRecourse :
      s.is_paid ≡ false → OnlyRecourse → ¬ (not_only_recourse V s ≡ ok tt)
  unfolding not_only_recourse expired_request_to_pay expired_request_to_accept
  not_only_recourse-OnlyRecourse unpaid (acceptance_rejected i b h e) v =
      ground
        (arith, exists_with_op-get_elem? V s.blockchain i {b = b} BillOpCode.reject_to_accept h e)
  not_only_recourse-OnlyRecourse unpaid (payment_rejected i b h e) v =
      ground (arith, exists_with_op-get_elem? V s.blockchain i {b = b} BillOpCode.reject_to_pay h e)
  not_only_recourse-OnlyRecourse unpaid (payment_expired b base h e late) v =
      ground
        (arith, (check_if_deadline_has_passed_iff base s.timestamp payment_deadline_seconds).1 late)
  not_only_recourse-OnlyRecourse unpaid (acceptance_expired b h e late) v = ground (
    arith,
    (check_if_deadline_has_passed_iff b.timestamp s.timestamp accept_deadline_seconds).1 late,
  )

  validate_action-can_only_be_recoursed :
      (a : BillAction)
      → s.bill_action ≡ a
      → validate_action V s a ≡ ok tt
      → (not_only_recourse V s ≡ ok tt) ⊎ IsRecourse a
  unfolding validate_action bill_can_only_be_recoursed can_only_be_recoursed
  validate_action-can_only_be_recoursed (BillAction.recourse _ _ _ _) e v = inr tt
  validate_action-can_only_be_recoursed (BillAction.request_recourse _ _) e v = inr tt
  validate_action-can_only_be_recoursed BillAction.reject_payment_for_recourse e v = inr tt
  validate_action-can_only_be_recoursed _ e v = inl (ground arith)

  -- Once acceptance or payment was rejected, or has run out, what passes validation is an action
  -- of recourse: to request it, to pay it, or to reject it.
  pub validate-OnlyRecourse : OnlyRecourse → validate V s ≡ ok tt → IsRecourse s.bill_action
  unfolding validate validate_state
  validate-OnlyRecourse o v =
      let unpaid : s.is_paid ≡ false = ground arith in
      elim (validate_action-can_only_be_recoursed s.bill_action refl (ground arith)) [
        | inl open' ↦ absurd (not_only_recourse-OnlyRecourse unpaid o open')
        | inr r ↦ r
      ]
