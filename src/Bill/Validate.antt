-- ===== src/Bill/Validate.antt =====
-- The `Validate` instances of core/src/blockchain/bill/block.rs.
use e_bill.Prelude.{
  not, Option, none, some, Result, ok, ◌>>=◌, ◌>>◌, fail_if, trim_is_empty, ◌==◌, is_ok,
}
use e_bill.Error.{
  ValidationError, Field, field_empty, invalid_secp256k1_key, drawee_cant_be_payee,
  endorser_cant_be_endorsee, buyer_cant_be_seller, recourser_cant_be_recoursee,
  invalid_payment_address,
}
use e_bill.Platform.{Platform}
use e_bill.Util.Crypto.{validate_pub_key}
use e_bill.Util.Currency.{validate_currency, validate_sum}
use e_bill.Util.Date.{date_string_to_timestamp}
use e_bill.Contact.{PostalAddress, validate_address}
use e_bill.Bill.Data

module _ (P : Platform) where
  unfoldable pub validate_identity : Data.BillIdentityBlockData → Result ValidationError Unit
  validate_identity i = do
    fail_if (not (is_ok (validate_pub_key P i.node_id))) (invalid_secp256k1_key i.node_id)
    fail_if (trim_is_empty i.name) (field_empty Field.name)
    validate_address i.postal_address
    ok tt

  unfoldable pub validate_signatory :
      Option Data.BillSignatoryBlockData → Result ValidationError Unit
  validate_signatory none = ok tt
  validate_signatory (some s) = do
    fail_if (not (is_ok (validate_pub_key P s.node_id))) (invalid_secp256k1_key s.node_id)
    fail_if (trim_is_empty s.name) (field_empty Field.name)
    ok tt

  -- What every instance ends with: the signatory, if there is one, and the signing address.
  unfoldable pub validate_signing :
      Option Data.BillSignatoryBlockData → PostalAddress → Result ValidationError Unit
  validate_signing signatory signing_address = do
    validate_signatory signatory
    validate_address signing_address
    ok tt

  unfoldable pub validate_reject : Data.BillRejectBlockData → Result ValidationError Unit
  validate_reject d = do
    validate_identity d.rejecter
    validate_signing d.signatory d.signing_address

  unfoldable pub validate_issue : Data.BillIssueBlockData → Result ValidationError Unit
  validate_issue d = do
    fail_if (trim_is_empty d.id) (field_empty Field.id)
    fail_if (trim_is_empty d.country_of_issuing) (field_empty Field.country_of_issuing)
    fail_if (trim_is_empty d.city_of_issuing) (field_empty Field.city_of_issuing)
    fail_if (d.drawee.node_id == d.payee.node_id) drawee_cant_be_payee
    validate_identity d.drawee
    validate_identity d.drawer
    validate_identity d.payee
    validate_currency d.currency
    validate_sum d.sum
    maturity_date ← date_string_to_timestamp P d.maturity_date none
    issue_date ← date_string_to_timestamp P d.issue_date none
    fail_if (trim_is_empty d.country_of_payment) (field_empty Field.country_of_payment)
    fail_if (trim_is_empty d.city_of_payment) (field_empty Field.city_of_payment)
    fail_if (trim_is_empty d.language) (field_empty Field.language)
    validate_signing d.signatory d.signing_address

  unfoldable pub validate_accept : Data.BillAcceptBlockData → Result ValidationError Unit
  validate_accept d = do
    validate_identity d.accepter
    validate_signing d.signatory d.signing_address

  unfoldable pub validate_request_to_pay :
      Data.BillRequestToPayBlockData → Result ValidationError Unit
  validate_request_to_pay d = do
    validate_identity d.requester
    validate_currency d.currency
    validate_signing d.signatory d.signing_address

  unfoldable pub validate_request_to_accept :
      Data.BillRequestToAcceptBlockData → Result ValidationError Unit
  validate_request_to_accept d = do
    validate_identity d.requester
    validate_signing d.signatory d.signing_address

  unfoldable pub validate_mint : Data.BillMintBlockData → Result ValidationError Unit
  validate_mint d = do
    validate_identity d.endorser
    validate_identity d.endorsee
    fail_if (d.endorsee.node_id == d.endorser.node_id) endorser_cant_be_endorsee
    validate_currency d.currency
    validate_sum d.sum
    validate_signing d.signatory d.signing_address

  unfoldable pub validate_offer_to_sell :
      Data.BillOfferToSellBlockData → Result ValidationError Unit
  validate_offer_to_sell d = do
    validate_identity d.seller
    validate_identity d.buyer
    fail_if (d.buyer.node_id == d.seller.node_id) buyer_cant_be_seller
    validate_currency d.currency
    validate_sum d.sum
    fail_if (not (P.address_from_str d.payment_address)) invalid_payment_address
    validate_signing d.signatory d.signing_address

  unfoldable pub validate_sell : Data.BillSellBlockData → Result ValidationError Unit
  validate_sell d = do
    validate_identity d.seller
    validate_identity d.buyer
    fail_if (d.buyer.node_id == d.seller.node_id) buyer_cant_be_seller
    validate_currency d.currency
    validate_sum d.sum
    fail_if (not (P.address_from_str d.payment_address)) invalid_payment_address
    validate_signing d.signatory d.signing_address

  unfoldable pub validate_endorse : Data.BillEndorseBlockData → Result ValidationError Unit
  validate_endorse d = do
    validate_identity d.endorser
    validate_identity d.endorsee
    fail_if (d.endorsee.node_id == d.endorser.node_id) endorser_cant_be_endorsee
    validate_signing d.signatory d.signing_address

  unfoldable pub validate_request_recourse :
      Data.BillRequestRecourseBlockData → Result ValidationError Unit
  validate_request_recourse d = do
    validate_identity d.recourser
    validate_identity d.recoursee
    fail_if (d.recoursee.node_id == d.recourser.node_id) recourser_cant_be_recoursee
    validate_currency d.currency
    validate_sum d.sum
    validate_signing d.signatory d.signing_address

  unfoldable pub validate_recourse : Data.BillRecourseBlockData → Result ValidationError Unit
  validate_recourse d = do
    validate_identity d.recourser
    validate_identity d.recoursee
    fail_if (d.recoursee.node_id == d.recourser.node_id) recourser_cant_be_recoursee
    validate_currency d.currency
    validate_sum d.sum
    validate_signing d.signatory d.signing_address

  -- `data.validate()` at each type of block data.
  unfoldable pub validate_data : (t : Data.DataType) → Data.Data t → Result ValidationError Unit
  unfolding validate_issue validate_reject validate_accept validate_request_to_pay
      validate_request_to_accept validate_mint validate_offer_to_sell validate_sell validate_endorse
      validate_request_recourse validate_recourse
  validate_data Data.DataType.issue = validate_issue
  validate_data Data.DataType.reject = validate_reject
  validate_data Data.DataType.accept = validate_accept
  validate_data Data.DataType.request_to_pay = validate_request_to_pay
  validate_data Data.DataType.request_to_accept = validate_request_to_accept
  validate_data Data.DataType.mint = validate_mint
  validate_data Data.DataType.offer_to_sell = validate_offer_to_sell
  validate_data Data.DataType.sell = validate_sell
  validate_data Data.DataType.endorse = validate_endorse
  validate_data Data.DataType.request_recourse = validate_request_recourse
  validate_data Data.DataType.recourse = validate_recourse
