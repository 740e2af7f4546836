-- ===== src/Tests/Actions.antt =====
-- The theorems on actions at bills that are accepted, rejected, offered to sell and in recourse.
use e_bill.Prelude.{◌≢◌, All, ℕ, ◌≡◌, refl, false, none, List, [], ◌∷◌, arith, ok}
use e_bill.Bill.Data
use e_bill.Bill.Data.{BillBlock, BillAction, RecourseReason, to_public_data}
use e_bill.Bill.Action.{BillValidateActionData, validate}
use e_bill.Bill.Action.Authority.{validate-Authorised}
use e_bill.Bill.Action.Terminal.{
  expired, validate-Finished, acceptance_rejected, IsRecourse, validate-OnlyRecourse,
}
use e_bill.Bill.Action.Blocking.{for_purchase, purchase, Answers, validate-Waits}
use e_bill.Bill.Action.{get_deadline_base_for_req_to_pay}
use e_bill.Bill.Action.Terms.{Offered, validate-Offered, Requested, validate-Requested}
use e_bill.Bill.Action.Recourse.{Recoursable, Failed, validate-Recoursable}
use e_bill.Util.Date.{date_string_to_timestamp, end_of_day_as_timestamp}
use e_bill.Bill.Data.{DataType, BillIssueBlockData}
use e_bill.Bill.Chain.{get_first_version_bill}
use e_bill.Bill.Endorsees.{
  PastEndorsee, endorsee_of_drawer, endorsee_of_holder, get_past_endorsees_for_bill,
}
use e_bill.Bill.Endorsees.Past.{
  IsEarlierHolder, AllListed, IsDescending, get_past_endorsees-IsEarlierHolder,
}
use e_bill.Tests.Sample.{env, party, sample}
use e_bill.Tests.Blocks.{issued, endorsed, accepted, rejected, sold_offer, asked_recourse, keys}

-- The payee asks for an action on a bill with these blocks.
abbrev asked : List BillBlock → ℕ → BillAction → BillValidateActionData
asked chain now action = record {
  blockchain = chain;
  drawee_node_id = (party 2).node_id;
  payee_node_id = (party 3).node_id;
  endorsee_node_id = none;
  maturity_date = "2025-01-01";
  bill_keys = keys;
  timestamp = now;
  signer_node_id = (party 3).node_id;
  bill_action = action;
  is_paid = false;
}

abbrev endorse : BillAction
endorse = BillAction.endorse (to_public_data (party 5))

abbrev an_endorsement : BillValidateActionData
an_endorsement = asked (issued ∷ accepted ∷ []) 30 endorse

allowed_endorsement : validate env an_endorsement ≡ ok tt
unfolding validate e_bill.Bill.Action.validate_state e_bill.Bill.Chain.exists_with_op
    e_bill.Blockchain.block_with_operation_code_exists Data.op_eq e_bill.Bill.Chain.last_with_op
    e_bill.Blockchain.get_last_version_block_with_op_code e_bill.Bill.Action.validate_action
    e_bill.Bill.Action.bill_is_blocked e_bill.Bill.Action.bill_waiting_for_req_to_pay
    e_bill.Blockchain.get_latest_block e_bill.Bill.Action.bill_waiting_for_offer_to_sell
    e_bill.Bill.Chain.is_last_offer_to_sell_block_waiting_for_payment
    e_bill.Bill.Action.bill_waiting_for_recourse_payment
    e_bill.Bill.Chain.is_last_request_to_recourse_block_waiting_for_payment
    e_bill.Bill.Action.bill_can_only_be_recoursed e_bill.Bill.Action.caller_is_holder
allowed_endorsement = refl

validate-Authorised_example : an_endorsement.signer_node_id ≡ "aaab"
unfolding e_bill.Bill.Action.holder_node_id
validate-Authorised_example = validate-Authorised env an_endorsement allowed_endorsement

abbrev too_late : BillValidateActionData
too_late = asked (issued ∷ asked_recourse ∷ []) 200000 endorse

validate-Finished_example : ¬ (validate env too_late ≡ ok tt)
validate-Finished_example =
    validate-Finished env too_late (expired asked_recourse refl refl (omega arith))

abbrev a_request_for_recourse : BillValidateActionData
a_request_for_recourse =
    asked (issued ∷ rejected ∷ []) 30
      (BillAction.request_recourse (to_public_data (party 1)) RecourseReason.accept)

allowed_request : validate env a_request_for_recourse ≡ ok tt
unfolding validate e_bill.Bill.Action.validate_state e_bill.Bill.Chain.exists_with_op
    e_bill.Blockchain.block_with_operation_code_exists Data.op_eq e_bill.Bill.Chain.last_with_op
    e_bill.Blockchain.get_last_version_block_with_op_code e_bill.Bill.Action.validate_action
    e_bill.Bill.Action.bill_is_blocked e_bill.Bill.Action.bill_waiting_for_req_to_pay
    e_bill.Blockchain.get_latest_block e_bill.Bill.Action.bill_waiting_for_offer_to_sell
    e_bill.Bill.Chain.is_last_offer_to_sell_block_waiting_for_payment
    e_bill.Bill.Action.bill_waiting_for_recourse_payment
    e_bill.Bill.Chain.is_last_request_to_recourse_block_waiting_for_payment
    e_bill.Bill.Action.caller_is_holder e_bill.Bill.Endorsees.get_past_endorsees_for_bill
    e_bill.Bill.Chain.get_first_version_bill e_bill.Blockchain.get_first_block
    e_bill.Bill.Block.get_decrypted_block_bytes e_bill.Util.Crypto.decrypt_ecies
    e_bill.Bill.Block.get_holder_from_block e_bill.Bill.Action.recourse_reason_holds
allowed_request = refl

validate-OnlyRecourse_example : IsRecourse a_request_for_recourse.bill_action
validate-OnlyRecourse_example =
    validate-OnlyRecourse env a_request_for_recourse (acceptance_rejected 1 rejected refl refl)
      allowed_request

abbrev a_sale : BillValidateActionData
a_sale =
    asked (issued ∷ sold_offer ∷ []) 30
      (BillAction.sell (to_public_data (party 5)) 500 "sat" "addr")

allowed_sale : validate env a_sale ≡ ok tt
unfolding validate e_bill.Bill.Action.validate_state e_bill.Bill.Chain.exists_with_op
    e_bill.Blockchain.block_with_operation_code_exists Data.op_eq e_bill.Bill.Chain.last_with_op
    e_bill.Blockchain.get_last_version_block_with_op_code e_bill.Bill.Action.validate_action
    e_bill.Bill.Action.bill_waiting_for_recourse_payment
    e_bill.Bill.Chain.is_last_request_to_recourse_block_waiting_for_payment
    e_bill.Blockchain.get_latest_block e_bill.Bill.Action.bill_waiting_for_req_to_pay
    e_bill.Bill.Action.bill_can_only_be_recoursed e_bill.Bill.Action.caller_is_holder
    e_bill.Bill.Action.sell_matches
    e_bill.Bill.Chain.is_last_offer_to_sell_block_waiting_for_payment e_bill.Bill.Chain.offer_of
    e_bill.Util.Date.check_if_deadline_has_passed e_bill.Bill.Block.get_decrypted_block_bytes
    e_bill.Util.Crypto.decrypt_ecies
allowed_sale = refl

validate-Waits_example : Answers for_purchase a_sale.bill_action
validate-Waits_example =
    validate-Waits env a_sale for_purchase (purchase sold_offer refl refl (omega arith))
      allowed_sale

validate-Offered_example : Offered env a_sale (to_public_data (party 5)) 500 "sat" "addr"
validate-Offered_example = validate-Offered env a_sale refl allowed_sale

abbrev a_recourse : BillValidateActionData
a_recourse =
    asked (issued ∷ asked_recourse ∷ []) 30
      (BillAction.recourse (to_public_data (party 1)) 500 "sat" RecourseReason.accept)

allowed_recourse : validate env a_recourse ≡ ok tt
unfolding validate e_bill.Bill.Action.validate_state e_bill.Bill.Chain.exists_with_op
    e_bill.Blockchain.block_with_operation_code_exists Data.op_eq e_bill.Bill.Chain.last_with_op
    e_bill.Blockchain.get_last_version_block_with_op_code e_bill.Bill.Action.validate_action
    e_bill.Bill.Action.bill_is_blocked e_bill.Bill.Action.bill_waiting_for_req_to_pay
    e_bill.Blockchain.get_latest_block e_bill.Bill.Action.bill_waiting_for_offer_to_sell
    e_bill.Bill.Chain.is_last_offer_to_sell_block_waiting_for_payment
    e_bill.Bill.Action.bill_waiting_for_recourse_payment
    e_bill.Bill.Chain.is_last_request_to_recourse_block_waiting_for_payment
    e_bill.Bill.Action.caller_is_holder e_bill.Bill.Endorsees.get_past_endorsees_for_bill
    e_bill.Bill.Chain.get_first_version_bill e_bill.Blockchain.get_first_block
    e_bill.Bill.Block.get_decrypted_block_bytes e_bill.Util.Crypto.decrypt_ecies
    e_bill.Bill.Block.get_holder_from_block e_bill.Bill.Action.recourse_reason_holds
    e_bill.Bill.Action.recourse_matches e_bill.Bill.Chain.recourse_of
    e_bill.Util.Date.check_if_deadline_has_passed
allowed_recourse = refl

validate-Requested_example :
    Requested env a_recourse (to_public_data (party 1)) 500 "sat" RecourseReason.accept
validate-Requested_example = validate-Requested env a_recourse refl allowed_recourse

validate-Recoursable_example :
    Recoursable env a_request_for_recourse (to_public_data (party 1))
    × Failed env a_request_for_recourse RecourseReason.accept
validate-Recoursable_example = validate-Recoursable env a_request_for_recourse refl allowed_request

-- The bill was issued to 3 and endorsed to 5, who asks; 3 and the drawer 1 come before.
abbrev past : List PastEndorsee
unfolding endorsee_of_drawer endorsee_of_holder
past =
    endorsee_of_holder issued.timestamp
      (record { holder = party 3; signer = party 1; signatory = none })
    ∷ endorsee_of_drawer (sample DataType.issue)
    ∷ []

past_found :
    get_past_endorsees_for_bill env (issued ∷ endorsed ∷ []) keys (party 5).node_id ≡ ok past
unfolding get_past_endorsees_for_bill get_first_version_bill e_bill.Blockchain.get_first_block
    e_bill.Bill.Block.get_decrypted_block_bytes e_bill.Util.Crypto.decrypt_ecies Data.op_eq
    e_bill.Bill.Block.get_holder_from_block
past_found = refl

get_past_endorsees-IsEarlierHolder_example :
    (bill : BillIssueBlockData) × (get_first_version_bill env (issued ∷ endorsed ∷ []) keys
      ≡ ok bill)
    × All
        (λ (e : PastEndorsee).
          (e.pay_to_the_order_of.node_id ≢ (party 5).node_id)
          × IsEarlierHolder env (issued ∷ endorsed ∷ []) keys (party 5).node_id bill e)
        past
    × AllListed env (issued ∷ endorsed ∷ []) keys (party 5).node_id bill past
    × IsDescending past
get_past_endorsees-IsEarlierHolder_example =
    get_past_endorsees-IsEarlierHolder env (issued ∷ endorsed ∷ []) keys (party 5).node_id
      past_found
