-- ===== src/Service/Block/Meaning.antt =====
-- What other nodes read from the block of an action of the user.
use e_bill.Prelude.{ℕ, ◌≡◌, refl, String, Option, some, none, false}
use e_bill.Contact.{IdentityPublicData}
use e_bill.Util.Crypto.{BcrKeys}
use e_bill.Bill.Data.{
  BillOpCode, BillAction, BillBlock, RecourseReason, to_block_data, to_public_data, op_eq,
}
use e_bill.Bill.Env.{BillEnv}
use e_bill.Bill.Signer.{data_type, signed_by, signatory_id, reason_of}
use e_bill.Bill.Create
use e_bill.Bill.Create.{encrypt_data_create_block_and_validate}
use e_bill.Bill.Action.{
  BillValidateActionData, validate, validate_action, reason_data, can_only_be_recoursed,
  bill_can_only_be_recoursed, recourse_matches, sell_matches, recourse_reason_holds, validate_state,
  caller_is_holder, bill_is_blocked,
}
use e_bill.Service.State.{ServiceEnv}
use e_bill.Service.Fetch.{BitcreditBill, BillSigningKeys}
use e_bill.Service.Block.{action_op, block_data, create_block}

-- Without what a block does not hold of a party.
abbrev stripped : IdentityPublicData → IdentityPublicData
stripped party = to_public_data (to_block_data party)

-- The action as it is read from its block.
abbrev pub as_read : BillAction → BillAction
as_read BillAction.accept = BillAction.accept
as_read BillAction.request_acceptance = BillAction.request_acceptance
as_read (BillAction.request_to_pay currency) = BillAction.request_to_pay currency
as_read (BillAction.request_recourse recoursee reason) =
    BillAction.request_recourse (stripped recoursee) reason
as_read (BillAction.recourse recoursee sum currency reason) =
    BillAction.recourse (stripped recoursee) sum currency
      (reason_of (reason_data reason) sum currency)
as_read (BillAction.mint mint sum currency) = BillAction.mint (stripped mint) sum currency
as_read (BillAction.offer_to_sell buyer sum currency) =
    BillAction.offer_to_sell (stripped buyer) sum currency
as_read (BillAction.sell buyer sum currency payment_address) =
    BillAction.sell (stripped buyer) sum currency payment_address
as_read (BillAction.endorse endorsee) = BillAction.endorse (stripped endorsee)
as_read BillAction.reject_acceptance = BillAction.reject_acceptance
as_read BillAction.reject_buying = BillAction.reject_buying
as_read BillAction.reject_payment = BillAction.reject_payment
as_read BillAction.reject_payment_for_recourse = BillAction.reject_payment_for_recourse

pub block_data-signed_by :
    (action : BillAction) (current : BitcreditBill) (signer : IdentityPublicData)
    (signing_keys : BillSigningKeys) (timestamp : ℕ) (address_to_pay : String)
    → signed_by
        (action_op action)
        (block_data action current signer signing_keys timestamp address_to_pay)
      ≡ (signer.node_id, signatory_id signing_keys.signatory_identity, some (as_read action))
unfolding signed_by block_data
block_data-signed_by (BillAction.request_recourse x RecourseReason.accept) _ _ _ _ _ = refl
block_data-signed_by (BillAction.request_recourse x (RecourseReason.pay s c)) _ _ _ _ _ = refl
block_data-signed_by BillAction.accept _ _ _ _ _ = refl
block_data-signed_by BillAction.request_acceptance _ _ _ _ _ = refl
block_data-signed_by (BillAction.request_to_pay c) _ _ _ _ _ = refl
block_data-signed_by (BillAction.recourse x s c r) _ _ _ _ _ = refl
block_data-signed_by (BillAction.mint x s c) _ _ _ _ _ = refl
block_data-signed_by (BillAction.offer_to_sell x s c) _ _ _ _ _ = refl
block_data-signed_by (BillAction.sell x s c a) _ _ _ _ _ = refl
block_data-signed_by (BillAction.endorse x) _ _ _ _ _ = refl
block_data-signed_by BillAction.reject_acceptance _ _ _ _ _ = refl
block_data-signed_by BillAction.reject_buying _ _ _ _ _ = refl
block_data-signed_by BillAction.reject_payment _ _ _ _ _ = refl
block_data-signed_by BillAction.reject_payment_for_recourse _ _ _ _ _ = refl

pub action_op-not_issue : (action : BillAction) → op_eq (action_op action) BillOpCode.issue ≡ false
unfolding op_eq
action_op-not_issue BillAction.accept = refl
action_op-not_issue BillAction.request_acceptance = refl
action_op-not_issue (BillAction.request_to_pay _) = refl
action_op-not_issue (BillAction.request_recourse _ _) = refl
action_op-not_issue (BillAction.recourse _ _ _ _) = refl
action_op-not_issue (BillAction.mint _ _ _) = refl
action_op-not_issue (BillAction.offer_to_sell _ _ _) = refl
action_op-not_issue (BillAction.sell _ _ _ _) = refl
action_op-not_issue (BillAction.endorse _) = refl
action_op-not_issue BillAction.reject_acceptance = refl
action_op-not_issue BillAction.reject_buying = refl
action_op-not_issue BillAction.reject_payment = refl
action_op-not_issue BillAction.reject_payment_for_recourse = refl

module _ (V : BillEnv) (s : BillValidateActionData) where
  abbrev asked : BillAction → BillValidateActionData
  asked action = record s { bill_action = action }

  -- The checks of an action look at nothing that its block does not hold.
  pub validate-as_read :
      (action : BillAction) → validate V (asked (as_read action)) ≡ validate V (asked action)
  unfolding validate validate_action validate_state bill_is_blocked bill_can_only_be_recoursed
      caller_is_holder e_bill.Bill.Action.bill_waiting_for_req_to_pay
      e_bill.Bill.Action.bill_waiting_for_offer_to_sell
      e_bill.Bill.Action.bill_waiting_for_recourse_payment sell_matches recourse_reason_holds
      recourse_matches
  validate-as_read BillAction.accept = refl
  validate-as_read BillAction.request_acceptance = refl
  validate-as_read (BillAction.request_to_pay _) = refl
  validate-as_read (BillAction.request_recourse _ _) = refl
  validate-as_read (BillAction.recourse _ _ _ RecourseReason.accept) = refl
  validate-as_read (BillAction.recourse _ _ _ (RecourseReason.pay _ _)) = refl
  validate-as_read (BillAction.mint _ _ _) = refl
  validate-as_read (BillAction.offer_to_sell _ _ _) = refl
  validate-as_read (BillAction.sell _ _ _ _) = refl
  validate-as_read (BillAction.endorse _) = refl
  validate-as_read BillAction.reject_acceptance = refl
  validate-as_read BillAction.reject_buying = refl
  validate-as_read BillAction.reject_payment = refl
  validate-as_read BillAction.reject_payment_for_recourse = refl

module _ (V : ServiceEnv) where
  -- To whom the bill's key goes with the block.
  abbrev pub holder_for : BillAction → Option String
  holder_for (BillAction.mint mint _ _) = some mint.node_id
  holder_for (BillAction.sell buyer _ _ _) = some buyer.node_id
  holder_for (BillAction.endorse endorsee) = some endorsee.node_id
  holder_for _ = none

  module _ (current : BitcreditBill) (signer : IdentityPublicData) (signing_keys : BillSigningKeys)
      (timestamp : ℕ) (address_to_pay bill_id : String) (previous : BillBlock) (identity : BcrKeys)
      (company : Option BcrKeys) (bill : BcrKeys) where
    pub create_block_lem :
        (action : BillAction)
        → create_block V action bill_id previous
            (block_data action current signer signing_keys timestamp address_to_pay)
            identity
            company
            bill
            timestamp
          ≡ encrypt_data_create_block_and_validate V.bill
              (data_type (action_op action))
              bill_id
              previous
              (block_data action current signer signing_keys timestamp address_to_pay)
              identity
              company
              bill
              (holder_for action)
              timestamp
              (action_op action)
    unfolding create_block block_data encrypt_data_create_block_and_validate
        Create.create_block_for_request_to_accept Create.create_block_for_accept
        Create.create_block_for_request_to_pay Create.create_block_for_offer_to_sell
        Create.create_block_for_sell Create.create_block_for_endorse
        Create.create_block_for_request_recourse Create.create_block_for_recourse
        Create.create_block_for_mint Create.create_block_for_reject_to_accept
        Create.create_block_for_reject_to_pay Create.create_block_for_reject_to_buy
        Create.create_block_for_reject_to_pay_recourse
    create_block_lem BillAction.accept = refl
    create_block_lem BillAction.request_acceptance = refl
    create_block_lem (BillAction.request_to_pay _) = refl
    create_block_lem (BillAction.request_recourse _ _) = refl
    create_block_lem (BillAction.recourse _ _ _ _) = refl
    create_block_lem (BillAction.mint _ _ _) = refl
    create_block_lem (BillAction.offer_to_sell _ _ _) = refl
    create_block_lem (BillAction.sell _ _ _ _) = refl
    create_block_lem (BillAction.endorse _) = refl
    create_block_lem BillAction.reject_acceptance = refl
    create_block_lem BillAction.reject_buying = refl
    create_block_lem BillAction.reject_payment = refl
    create_block_lem BillAction.reject_payment_for_recourse = refl
