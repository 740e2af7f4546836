-- ===== src/Service/Block.antt =====
-- blocks.rs: the block that stands for an action of the user.
pub mod Meaning
use e_bill.Prelude.{ℕ, String, Option, none, some, Result, ok, ◌>>=◌, ◌>>◌, map_err, ok_or}
use e_bill.Error.{BlockchainError}
use e_bill.Contact.{IdentityPublicData}
use e_bill.Util.Crypto.{BcrKeys, from_private_key}
use e_bill.Blockchain.{get_latest_block}
use e_bill.Bill.Data.{
  BillOpCode, BillAction, BillBlock, BillKeys, DataType, Data, RecourseReason, to_block_data,
}
use e_bill.Bill.Validate.{validate_data}
use e_bill.Bill.Block.{bill_block}
use e_bill.Bill.Signer.{data_type}
use e_bill.Bill.Create
use e_bill.Bill.Create.{Creates}
use e_bill.Bill.Chain.{BillBlockchain}
use e_bill.Bill.Action.{reason_data}
use e_bill.Service.State.{
  ServiceEnv, ServiceError, blockchain, external_api, cryptography, validation,
}
use e_bill.Service.Fetch.{BitcreditBill, BillSigningKeys}

-- The op code of the block of an action.
abbrev pub action_op : BillAction → BillOpCode
action_op BillAction.accept = BillOpCode.accept
action_op BillAction.request_acceptance = BillOpCode.request_to_accept
action_op (BillAction.request_to_pay _) = BillOpCode.request_to_pay
action_op (BillAction.request_recourse _ _) = BillOpCode.request_recourse
action_op (BillAction.recourse _ _ _ _) = BillOpCode.recourse
action_op (BillAction.mint _ _ _) = BillOpCode.mint
action_op (BillAction.offer_to_sell _ _ _) = BillOpCode.offer_to_sell
action_op (BillAction.sell _ _ _ _) = BillOpCode.sell
action_op (BillAction.endorse _) = BillOpCode.endorse
action_op BillAction.reject_acceptance = BillOpCode.reject_to_accept
action_op BillAction.reject_buying = BillOpCode.reject_to_buy
action_op BillAction.reject_payment = BillOpCode.reject_to_pay
action_op BillAction.reject_payment_for_recourse = BillOpCode.reject_to_pay_recourse

-- The sum and the currency of a request for recourse: the bill's for a missing acceptance.
abbrev pub recourse_sum : BitcreditBill → RecourseReason → ℕ
recourse_sum bill RecourseReason.accept = bill.sum
recourse_sum bill (RecourseReason.pay sum currency) = sum

abbrev pub recourse_currency : BitcreditBill → RecourseReason → String
recourse_currency bill RecourseReason.accept = bill.currency
recourse_currency bill (RecourseReason.pay sum currency) = currency

-- The data of the block, with the address that `offer_to_sell` is given.
unfoldable pub block_data :
    (action : BillAction)
    → BitcreditBill
    → IdentityPublicData
    → BillSigningKeys
    → ℕ
    → String
    → Data (data_type (action_op action))
block_data BillAction.accept bill signer signing_keys timestamp address_to_pay = record {
  accepter = to_block_data signer;
  signatory = signing_keys.signatory_identity;
  signing_timestamp = timestamp;
  signing_address = signer.postal_address;
}
block_data BillAction.request_acceptance bill signer signing_keys timestamp address_to_pay =
    record {
      requester = to_block_data signer;
      signatory = signing_keys.signatory_identity;
      signing_timestamp = timestamp;
      signing_address = signer.postal_address;
    }
block_data (BillAction.request_to_pay currency) bill signer signing_keys timestamp address_to_pay =
    record {
      requester = to_block_data signer;
      currency = currency;
      signatory = signing_keys.signatory_identity;
      signing_timestamp = timestamp;
      signing_address = signer.postal_address;
    }
block_data (BillAction.request_recourse recoursee reason) bill signer signing_keys timestamp
      address_to_pay =
    record {
      recourser = to_block_data signer;
      recoursee = to_block_data recoursee;
      sum = recourse_sum bill reason;
      currency = recourse_currency bill reason;
      recourse_reason = reason_data reason;
      signatory = signing_keys.signatory_identity;
      signing_timestamp = timestamp;
      signing_address = signer.postal_address;
    }
block_data (BillAction.recourse recoursee sum currency reason) bill signer signing_keys timestamp
      address_to_pay =
    record {
      recourser = to_block_data signer;
      recoursee = to_block_data recoursee;
      sum = sum;
      currency = currency;
      recourse_reason = reason_data reason;
      signatory = signing_keys.signatory_identity;
      signing_timestamp = timestamp;
      signing_address = signer.postal_address;
    }
block_data (BillAction.mint mint sum currency) bill signer signing_keys timestamp address_to_pay =
    record {
      endorser = to_block_data signer;
      endorsee = to_block_data mint;
      currency = currency;
      sum = sum;
      signatory = signing_keys.signatory_identity;
      signing_timestamp = timestamp;
      signing_address = signer.postal_address;
    }
block_data (BillAction.offer_to_sell buyer sum currency) bill signer signing_keys timestamp
      address_to_pay =
    record {
      seller = to_block_data signer;
      buyer = to_block_data buyer;
      currency = currency;
      sum = sum;
      payment_address = address_to_pay;
      signatory = signing_keys.signatory_identity;
      signing_timestamp = timestamp;
      signing_address = signer.postal_address;
    }
block_data (BillAction.sell buyer sum currency payment_address) bill signer signing_keys timestamp
      address_to_pay =
    record {
      seller = to_block_data signer;
      buyer = to_block_data buyer;
      currency = currency;
      sum = sum;
      payment_address = payment_address;
      signatory = signing_keys.signatory_identity;
      signing_timestamp = timestamp;
      signing_address = signer.postal_address;
    }
block_data (BillAction.endorse endorsee) bill signer signing_keys timestamp address_to_pay =
    record {
      endorser = to_block_data signer;
      endorsee = to_block_data endorsee;
      signatory = signing_keys.signatory_identity;
      signing_timestamp = timestamp;
      signing_address = signer.postal_address;
    }
block_data BillAction.reject_acceptance bill signer signing_keys timestamp address_to_pay = record {
  rejecter = to_block_data signer;
  signatory = signing_keys.signatory_identity;
  signing_timestamp = timestamp;
  signing_address = signer.postal_address;
}
block_data BillAction.reject_buying bill signer signing_keys timestamp address_to_pay = record {
  rejecter = to_block_data signer;
  signatory = signing_keys.signatory_identity;
  signing_timestamp = timestamp;
  signing_address = signer.postal_address;
}
block_data BillAction.reject_payment bill signer signing_keys timestamp address_to_pay = record {
  rejecter = to_block_data signer;
  signatory = signing_keys.signatory_identity;
  signing_timestamp = timestamp;
  signing_address = signer.postal_address;
}
block_data BillAction.reject_payment_for_recourse bill signer signing_keys timestamp
      address_to_pay =
    record {
      rejecter = to_block_data signer;
      signatory = signing_keys.signatory_identity;
      signing_timestamp = timestamp;
      signing_address = signer.postal_address;
    }

module _ (V : ServiceEnv) where
  open V use {bill}

  unfoldable pub create_block : (action : BillAction) → Creates bill (data_type (action_op action))
  create_block BillAction.accept = Create.create_block_for_accept bill
  create_block BillAction.request_acceptance = Create.create_block_for_request_to_accept bill
  create_block (BillAction.request_to_pay _) = Create.create_block_for_request_to_pay bill
  create_block (BillAction.request_recourse _ _) = Create.create_block_for_request_recourse bill
  create_block (BillAction.recourse _ _ _ _) = Create.create_block_for_recourse bill
  create_block (BillAction.mint _ _ _) = Create.create_block_for_mint bill
  create_block (BillAction.offer_to_sell _ _ _) = Create.create_block_for_offer_to_sell bill
  create_block (BillAction.sell _ _ _ _) = Create.create_block_for_sell bill
  create_block (BillAction.endorse _) = Create.create_block_for_endorse bill
  create_block BillAction.reject_acceptance = Create.create_block_for_reject_to_accept bill
  create_block BillAction.reject_buying = Create.create_block_for_reject_to_buy bill
  create_block BillAction.reject_payment = Create.create_block_for_reject_to_pay bill
  create_block BillAction.reject_payment_for_recourse =
      Create.create_block_for_reject_to_pay_recourse bill

  unfoldable pub address_for :
      BillAction → BillKeys → IdentityPublicData → Result ServiceError String
  address_for (BillAction.offer_to_sell _ _ _) bill_keys signer =
      ok_or (V.get_address_to_pay bill_keys.public_key signer.node_id) external_api
  address_for _ bill_keys signer = ok ""

  -- `let block = match bill_action`
  unfoldable pub new_block :
      BitcreditBill
      → BillBlock
      → BillKeys
      → BillAction
      → IdentityPublicData
      → BillSigningKeys
      → ℕ
      → Result ServiceError BillBlock
  unfolding block_data create_block address_for
  new_block current previous_block bill_keys action signer signing_keys timestamp = do
    address_to_pay ← address_for action bill_keys signer
    let payload = block_data action current signer signing_keys timestamp address_to_pay
    map_err validation (validate_data bill.platform (data_type (action_op action)) payload)
    keys ← map_err cryptography (from_private_key bill.platform bill_keys.private_key)
    map_err blockchain (
        create_block action current.id previous_block payload signing_keys.signatory_keys
          signing_keys.company_keys keys timestamp)
