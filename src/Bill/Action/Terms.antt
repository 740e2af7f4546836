-- ===== src/Bill/Action/Terms.antt =====
-- What an action must agree with: the offer or the request that it answers (`validate` of core/src/bill/validation.rs).
use e_bill.Prelude.{
  ◌⊎◌, inl, inr, Bool-cases, ℕ, ◌≤◌, ◌≡◌, refl, String, true, none, arith, Result, ok, ◌>>=◌,
  map_err, eq_iff, ltb,
}
use e_bill.Error.{BlockchainError, ValidationError}
use e_bill.Util.Date.{date_string_to_timestamp, end_of_day_as_timestamp}
use e_bill.Contact.{IdentityPublicData}
use e_bill.Bill.Data
use e_bill.Bill.Data.{
  BillOpCode, BillAction, RecourseReason, OfferToSellWaitingForPayment, RecourseWaitingForPayment,
  PaymentInfo, RecoursePaymentInfo,
}
use e_bill.Bill.Env.{BillEnv}
use e_bill.Bill.Chain.{
  is_last_request_to_recourse_block_waiting_for_payment,
  is_last_offer_to_sell_block_waiting_for_payment,
}
use e_bill.Bill.Action.{
  BillValidateActionData, validate, validate_action, sell_matches, recourse_matches, same_reason,
  reason_data, get_deadline_base_for_req_to_pay,
}

module _ (V : BillEnv) (s : BillValidateActionData) where
  -- The offer that a sale answers: what it names is what the seller offered.
  pub record Offered (buyer : IdentityPublicData) (sum : ℕ) (currency payment_address : String)
      : Type 0 where
    pub info : PaymentInfo
    pub offer :
        is_last_offer_to_sell_block_waiting_for_payment V s.blockchain s.bill_keys s.timestamp
        ≡ ok (OfferToSellWaitingForPayment.waiting info)
    pub same_sum : info.sum ≡ sum
    pub same_currency : info.currency ≡ currency
    pub same_address : info.payment_address ≡ payment_address
    pub same_buyer : info.buyer.node_id ≡ buyer.node_id
    pub same_seller : info.seller.node_id ≡ s.signer_node_id

  sell_matches-Offered :
      (buyer : IdentityPublicData) (sum : ℕ) (currency payment_address : String)
      (r : Result BlockchainError OfferToSellWaitingForPayment)
      → is_last_offer_to_sell_block_waiting_for_payment V s.blockchain s.bill_keys s.timestamp ≡ r
      → sell_matches V s buyer sum currency payment_address r ≡ ok tt
      → Offered buyer sum currency payment_address
  unfolding sell_matches
  sell_matches-Offered buyer sum currency payment_address
        (ok (OfferToSellWaitingForPayment.waiting info)) e h =
      record {
        info = info;
        offer = e;
        same_sum = ground arith;
        same_currency = ground (arith, eq_iff info.currency currency);
        same_address = ground (arith, eq_iff info.payment_address payment_address);
        same_buyer = ground (arith, eq_iff info.buyer.node_id buyer.node_id);
        same_seller = ground (arith, eq_iff info.seller.node_id s.signer_node_id);
      }
  sell_matches-Offered buyer sum currency payment_address r e h = absurd (ground arith)

  validate-sell :
      {buyer : IdentityPublicData} {sum : ℕ} {currency payment_address : String}
      → s.bill_action ≡ BillAction.sell buyer sum currency payment_address
      → validate V s ≡ ok tt
      → sell_matches V s buyer sum currency payment_address
          (is_last_offer_to_sell_block_waiting_for_payment V s.blockchain s.bill_keys s.timestamp)
        ≡ ok tt
  unfolding validate validate_action
  validate-sell e h = ground arith

  -- A sale that passes validation answers the offer to sell that waits for payment: its buyer, sum,
  -- currency and payment address are those of the offer, and the signer is the party that made it.
  pub validate-Offered :
      {buyer : IdentityPublicData} {sum : ℕ} {currency payment_address : String}
      → s.bill_action ≡ BillAction.sell buyer sum currency payment_address
      → validate V s ≡ ok tt
      → Offered buyer sum currency payment_address
  validate-Offered {buyer} {sum} {currency} {payment_address} e h =
      sell_matches-Offered buyer sum currency payment_address _ refl (validate-sell e h)

  -- The request that a payment of recourse answers.
  pub record Requested (recoursee : IdentityPublicData) (sum : ℕ) (currency : String)
      (reason : RecourseReason) : Type 0 where
    pub info : RecoursePaymentInfo
    pub request :
        is_last_request_to_recourse_block_waiting_for_payment V s.blockchain s.bill_keys s.timestamp
        ≡ ok (RecourseWaitingForPayment.waiting info)
    pub same_sum : info.sum ≡ sum
    pub same_currency : info.currency ≡ currency
    pub same_recoursee : info.recoursee.node_id ≡ recoursee.node_id
    pub same_recourser : info.recourser.node_id ≡ s.signer_node_id
    pub same_reason : info.reason ≡ reason_data reason

  same_reason-eq : (a b : Data.BillRecourseReasonBlockData) → same_reason a b ≡ true → a ≡ b
  same_reason-eq Data.BillRecourseReasonBlockData.accept Data.BillRecourseReasonBlockData.accept h =
      refl
  same_reason-eq Data.BillRecourseReasonBlockData.pay Data.BillRecourseReasonBlockData.pay h = refl
  same_reason-eq _ _ h = absurd (ground arith)

  recourse_matches-Requested :
      (recoursee : IdentityPublicData) (sum : ℕ) (currency : String) (reason : RecourseReason)
      (r : Result ValidationError RecourseWaitingForPayment)
      → map_err ValidationError.blockchain (
          is_last_request_to_recourse_block_waiting_for_payment V s.blockchain s.bill_keys
            s.timestamp)
        ≡ r
      → (r >>= recourse_matches V s recoursee sum currency reason) ≡ ok tt
      → Requested recoursee sum currency reason
  unfolding recourse_matches
  recourse_matches-Requested recoursee sum currency reason
        (ok (RecourseWaitingForPayment.waiting info)) e h =
      record {
        info = info;
        request = ground arith;
        same_sum = ground arith;
        same_currency = ground (arith, eq_iff info.currency currency);
        same_recoursee = ground (arith, eq_iff info.recoursee.node_id recoursee.node_id);
        same_recourser = ground (arith, eq_iff info.recourser.node_id s.signer_node_id);
        same_reason = same_reason-eq info.reason (reason_data reason) (ground arith);
      }
  recourse_matches-Requested recoursee sum currency reason r e h = absurd (ground arith)

  validate-recourse :
      {recoursee : IdentityPublicData} {sum : ℕ} {currency : String} {reason : RecourseReason}
      → s.bill_action ≡ BillAction.recourse recoursee sum currency reason
      → validate V s ≡ ok tt
      → (map_err ValidationError.blockchain (
            is_last_request_to_recourse_block_waiting_for_payment V s.blockchain s.bill_keys
              s.timestamp)
          >>= recourse_matches V s recoursee sum currency reason)
        ≡ ok tt
  unfolding validate validate_action
  validate-recourse e h = ground arith

  -- A payment of recourse that passes validation answers the request for recourse that waits for it:
  -- its recoursee, sum, currency and reason are those of the request, and the signer is the party
  -- that made it.
  pub validate-Requested :
      {recoursee : IdentityPublicData} {sum : ℕ} {currency : String} {reason : RecourseReason}
      → s.bill_action ≡ BillAction.recourse recoursee sum currency reason
      → validate V s ≡ ok tt
      → Requested recoursee sum currency reason
  validate-Requested {recoursee} {sum} {currency} {reason} e h =
      recourse_matches-Requested recoursee sum currency reason _ refl (validate-recourse e h)

-- The time from which the deadline of a request to pay counts is the later one of the request and
-- the last second of the maturity date.
pub deadline_base_lem :
    (V : BillEnv) (request : ℕ) (maturity_date : String) {start day_end : ℕ}
    → date_string_to_timestamp V.platform maturity_date none ≡ ok start
    → end_of_day_as_timestamp V.platform start ≡ ok day_end
    → (base : ℕ) × (get_deadline_base_for_req_to_pay V request maturity_date ≡ ok base)
      × (request ≤ base)
      × (day_end ≤ base)
      × (base ≡ request ⊎ base ≡ day_end)
unfolding get_deadline_base_for_req_to_pay
deadline_base_lem V request maturity_date {start} {day_end} e f =
    elim (Bool-cases (ltb request day_end)) [
      | inl later ↦ (day_end, ground arith, ground arith, ground arith, inr refl)
      | inr earlier ↦ (request, ground arith, ground arith, ground arith, inl refl)
    ]
