-- ===== src/Error.antt =====
-- core/src/lib.rs (`Field`, `ValidationError`), core/src/blockchain/mod.rs (`Error`) and
-- core/src/util/crypto.rs (`Error`), where `core` stands for crates/bcr-ebill-core.
-- `ValidationError::Blockchain` holds the printed text of a blockchain error in the code; here it
-- holds the error.
use e_bill.Prelude.{ℕ, String}

pub data Field : Type 0 where
  country city zip address name id : Field
  country_of_issuing city_of_issuing country_of_payment city_of_payment language : Field

-- The variants are told apart by the library that failed.
pub data CryptoError : Type 0 where
  private_key ecies too_few_keys decode : CryptoError

mutual
  pub data ValidationError : Type 0 where
    field_empty : Field → ValidationError
    invalid_sum invalid_date maturity_date_in_the_past issue_date_after_maturity_date
          invalid_currency invalid_payment_address invalid_file_upload_id invalid_bill_type
          drawee_cant_be_payee endorser_cant_be_endorsee buyer_cant_be_seller
          recourser_cant_be_recoursee bill_already_accepted caller_is_not_drawee
          caller_is_not_holder recoursee_not_past_holder bill_already_requested_to_accept
          bill_not_accepted bill_was_rejected_to_pay bill_payment_expired
          bill_was_rejected_to_accept bill_acceptance_expired bill_was_rejected_to_recourse
          bill_request_to_recourse_expired bill_was_recoursed_to_the_end caller_is_not_recoursee
          caller_is_not_buyer request_already_expired request_already_rejected bill_already_paid
          bill_was_not_requested_to_accept bill_was_not_requested_to_pay
          bill_was_not_offered_to_sell bill_request_to_accept_did_not_expire_and_was_not_rejected
          bill_request_to_pay_did_not_expire_and_was_not_rejected
          bill_requested_to_pay_before_maturity_date bill_was_not_requested_to_recourse
          bill_is_not_requested_to_recourse_and_waiting_for_payment
          bill_is_not_offer_to_sell_waiting_for_payment bill_sell_data_invalid
          bill_recourse_data_invalid bill_is_requested_to_pay_and_waiting_for_payment
          bill_is_offered_to_sell_and_waiting_for_payment
          bill_is_in_recourse_and_waiting_for_payment bill_was_requested_to_pay
          caller_must_be_signatory drawer_is_not_bill_issuer :
        ValidationError
    signatory_not_in_contacts signatory_already_signatory : String → ValidationError
    cant_remove_last_signatory : ValidationError
    not_a_signatory invalid_secp256k1_key : String → ValidationError
    file_is_too_big invalid_file_name : ℕ → ValidationError
    invalid_content_type invalid_contact_type : ValidationError
    unknown_node_id : String → ValidationError
    backup_not_supported : ValidationError
    blockchain : BlockchainError → ValidationError

  pub data BlockchainError : Type 0 where
    io blockchain_invalid blockchain_parse block_invalid block_signature_does_not_match_signer
          invalid_operation base58_decode_error utf8 :
        BlockchainError
    block_data_invalid : ValidationError → BlockchainError
    secp256k1_cryptography : CryptoError → BlockchainError
    invalid_blockdata : String → BlockchainError
