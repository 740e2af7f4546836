-- ===== src/Tests/Events.antt =====
-- The theorems on received events at a bill that was issued, and endorsed or sold.
use e_bill.Prelude.{
  ap, ◌+◌, ◌<◌, inl, inr, u64_mod, ◌≡◌, refl, Bool, true, false, String, ◌==◌, Option, none, some,
  List, [], ◌∷◌, arith, Result, ok, err, if◌then◌else◌,
}
use e_bill.Blockchain
use e_bill.Util.Crypto
use e_bill.Bill.Data
use e_bill.Bill.Data.{BillKeys}
use e_bill.Bill.Data.{BillBlock, DataType, BillIssueBlockData, BillAction, to_public_data}
use e_bill.Bill.Chain.{new_from_blocks, get_first_version_bill}
use e_bill.Bill.Signer.{verify_and_get_signer}
use e_bill.Handler.Store
use e_bill.Handler.Store.{Store, update}
use e_bill.Handler.Exec.{persistence, blockchain}
use e_bill.Handler.Chain.{
  process_chain_data, add_new_chain, add_bill_blocks, get_valid_chain, save_block,
  validate_and_save_block,
}
use e_bill.Handler.Safety.{Appended, Admissible, validate_and_save_block-Outcome}
use e_bill.Handler.Complete.{process_chain_data-stores}
use e_bill.Handler.Events.{process_chain_data-Appended, process_chain_data-get_chain}
use e_bill.Handler.Gaps.{process_chain_data-stuck, process_chain_data-stale_cache}
use e_bill.Tests.Sample.{env, sample, party}
use e_bill.Tests.Blocks.{issued, endorsed, sold, bill_id, keys}

abbrev no_store : Store
no_store = record { rows = λ j. []; keys = λ j. none; is_paid = λ j. false; cached = λ j. true }

abbrev pub first : BillIssueBlockData
first = sample DataType.issue

-- The issued bill, without its keys and with them.
abbrev without_keys : Store
without_keys = record no_store { rows = update no_store.rows bill_id (issued ∷ []) }

abbrev pub stored : Store
stored = record without_keys { keys = λ j. some keys }

pub chain_read : Store.get_chain env bill_id stored ≡ ok (issued ∷ [])
unfolding Store.get_chain new_from_blocks Blockchain.verify Crypto.verify Blockchain.validate_hash
    e_bill.Util.sha256_hash Blockchain.is_chain_valid
chain_read = refl

pub issued_known : get_first_version_bill env (issued ∷ []) keys ≡ ok first
unfolding get_first_version_bill Blockchain.get_first_block
    e_bill.Bill.Block.get_decrypted_block_bytes Crypto.decrypt_ecies
issued_known = refl

abbrev after : Store
after = (process_chain_data env bill_id (endorsed ∷ []) none stored).1

process_chain_data-Appended_example : Appended env first keys false bill_id stored after
process_chain_data-Appended_example =
    process_chain_data-Appended env bill_id (endorsed ∷ []) none stored (issued ∷ []) keys first
      chain_read refl issued_known (refl, tt)

process_chain_data-get_chain_example : Store.get_chain env bill_id after ≡ ok (after.rows bill_id)
process_chain_data-get_chain_example =
    process_chain_data-get_chain env bill_id (endorsed ∷ []) none stored (issued ∷ []) keys first
      chain_read refl issued_known (refl, tt)

abbrev sale : BillAction
sale = BillAction.sell (to_public_data (party 5)) 500 "sat" "addr"

sold_signed : verify_and_get_signer env sold keys ≡ ok ("aaab", some sale)
unfolding verify_and_get_signer e_bill.Bill.Block.get_decrypted_block_bytes Crypto.decrypt_ecies
    e_bill.Bill.Validate.validate_data e_bill.Bill.Validate.validate_identity
    Crypto.validate_pub_key e_bill.Prelude.trim_is_empty e_bill.Contact.validate_address
    e_bill.Util.Date.date_string_to_timestamp e_bill.Util.Currency.validate_currency
    e_bill.Util.Currency.validate_sum e_bill.Util.is_blank e_bill.Bill.Signer.signed_by
    e_bill.Bill.Signer.verify_signer Crypto.combine_pub_keys Crypto.verify
    e_bill.Prelude.lowercase_codes e_bill.Bill.Validate.validate_signing
    e_bill.Bill.Validate.validate_signatory
sold_signed = refl

issued_signed : verify_and_get_signer env issued keys ≡ ok ("ab", none)
unfolding verify_and_get_signer e_bill.Bill.Block.get_decrypted_block_bytes Crypto.decrypt_ecies
    e_bill.Bill.Validate.validate_data e_bill.Bill.Validate.validate_identity
    Crypto.validate_pub_key e_bill.Prelude.trim_is_empty e_bill.Contact.validate_address
    e_bill.Util.Date.date_string_to_timestamp e_bill.Util.Currency.validate_currency
    e_bill.Util.Currency.validate_sum e_bill.Util.is_blank e_bill.Bill.Signer.signed_by
    e_bill.Bill.Signer.verify_signer Crypto.combine_pub_keys Crypto.verify
    e_bill.Prelude.lowercase_codes e_bill.Bill.Validate.validate_signing
    e_bill.Bill.Validate.validate_signatory
issued_signed = refl

sold_valid :
    get_valid_chain env (issued ∷ sold ∷ []) keys no_store
    ≡ (ok (bill_id, first, issued ∷ sold ∷ []), no_store)
unfolding get_valid_chain new_from_blocks Blockchain.validate_with_previous Blockchain.validate_hash
    e_bill.Util.sha256_hash Blockchain.verify Blockchain.is_chain_valid Blockchain.get_first_block
    get_first_version_bill Data.op_eq e_bill.Bill.Signer.verify_and_get_signer
    e_bill.Bill.Block.get_decrypted_block_bytes Crypto.decrypt_ecies
    e_bill.Bill.Validate.validate_data e_bill.Bill.Validate.validate_identity
    Crypto.validate_pub_key e_bill.Prelude.trim_is_empty e_bill.Contact.validate_address
    e_bill.Util.Date.date_string_to_timestamp e_bill.Util.Currency.validate_currency
    e_bill.Util.Currency.validate_sum e_bill.Util.is_blank e_bill.Bill.Signer.signed_by
    e_bill.Bill.Signer.verify_signer Crypto.combine_pub_keys Crypto.verify
    e_bill.Prelude.lowercase_codes e_bill.Bill.Validate.validate_signing
    e_bill.Bill.Validate.validate_signatory
sold_valid = refl

issued_read : new_from_blocks env (issued ∷ []) ≡ ok (issued ∷ [])
unfolding new_from_blocks Blockchain.verify Crypto.verify Blockchain.validate_hash
    e_bill.Util.sha256_hash Blockchain.is_chain_valid
issued_read = refl

sold_refused :
    validate_and_save_block env bill_id (issued ∷ []) first keys sold false without_keys
    ≡ (err blockchain, without_keys)
unfolding validate_and_save_block Blockchain.get_latest_block Blockchain.try_add_block Data.op_eq
    Blockchain.validate_with_previous Blockchain.validate_hash e_bill.Util.sha256_hash
    Blockchain.verify e_bill.Handler.Chain.check_block e_bill.Bill.Chain.get_bill_parties
    e_bill.Bill.Action.validate e_bill.Bill.Signer.verify_and_get_signer
    e_bill.Bill.Block.get_decrypted_block_bytes Crypto.decrypt_ecies
    e_bill.Bill.Validate.validate_data e_bill.Bill.Validate.validate_identity
    Crypto.validate_pub_key e_bill.Prelude.trim_is_empty e_bill.Contact.validate_address
    e_bill.Util.Date.date_string_to_timestamp e_bill.Util.Currency.validate_currency
    e_bill.Util.Currency.validate_sum e_bill.Util.is_blank e_bill.Bill.Signer.signed_by
    e_bill.Bill.Signer.verify_signer Crypto.combine_pub_keys Crypto.verify
    e_bill.Prelude.lowercase_codes e_bill.Bill.Validate.validate_signing
    e_bill.Bill.Validate.validate_signatory e_bill.Bill.Chain.last_party
    e_bill.Bill.Chain.last_with_op Blockchain.get_last_version_block_with_op_code
    e_bill.Bill.Action.validate_state e_bill.Bill.Chain.exists_with_op
    Blockchain.block_with_operation_code_exists e_bill.Bill.Action.validate_action
    e_bill.Bill.Action.bill_waiting_for_recourse_payment
    e_bill.Bill.Chain.is_last_request_to_recourse_block_waiting_for_payment
    e_bill.Bill.Action.bill_waiting_for_req_to_pay e_bill.Bill.Action.bill_can_only_be_recoursed
    e_bill.Bill.Action.caller_is_holder
    e_bill.Bill.Chain.is_last_offer_to_sell_block_waiting_for_payment
    e_bill.Bill.Action.sell_matches
sold_refused = refl

process_chain_data-stuck_example :
    (st' : Store) × (process_chain_data env bill_id (issued ∷ sold ∷ []) (some keys) no_store
      ≡ (err blockchain, st'))
    × (st'.rows bill_id ≡ issued ∷ [])
    × (st'.keys bill_id ≡ none)
    × ((later : List BillBlock) (sent : Option BillKeys)
        → process_chain_data env bill_id later sent st' ≡ (err persistence, st'))
process_chain_data-stuck_example =
    process_chain_data-stuck env bill_id no_store (issued ∷ sold ∷ []) [] keys first issued sold
      blockchain refl refl refl refl refl sold_valid issued_read (ap (λ m. m.0) sold_refused)

abbrev with_endorsed : Store
with_endorsed = record stored { rows = update stored.rows bill_id (issued ∷ endorsed ∷ []) }

endorsed_saved :
    validate_and_save_block env bill_id (issued ∷ []) first keys endorsed false stored
    ≡ (ok (true, issued ∷ endorsed ∷ []), with_endorsed)
unfolding validate_and_save_block Blockchain.get_latest_block Blockchain.try_add_block Data.op_eq
    Blockchain.validate_with_previous Blockchain.validate_hash e_bill.Util.sha256_hash
    Blockchain.verify e_bill.Handler.Chain.check_block e_bill.Bill.Chain.get_bill_parties
    e_bill.Bill.Action.validate e_bill.Bill.Signer.verify_and_get_signer
    e_bill.Bill.Block.get_decrypted_block_bytes Crypto.decrypt_ecies
    e_bill.Bill.Validate.validate_data e_bill.Bill.Validate.validate_identity
    Crypto.validate_pub_key e_bill.Prelude.trim_is_empty e_bill.Contact.validate_address
    e_bill.Util.Date.date_string_to_timestamp e_bill.Util.Currency.validate_currency
    e_bill.Util.Currency.validate_sum e_bill.Util.is_blank e_bill.Bill.Signer.signed_by
    e_bill.Bill.Signer.verify_signer Crypto.combine_pub_keys Crypto.verify
    e_bill.Prelude.lowercase_codes e_bill.Bill.Validate.validate_signing
    e_bill.Bill.Validate.validate_signatory e_bill.Bill.Chain.last_party
    e_bill.Bill.Chain.last_with_op Blockchain.get_last_version_block_with_op_code
    e_bill.Bill.Action.validate_state e_bill.Bill.Chain.exists_with_op
    Blockchain.block_with_operation_code_exists e_bill.Bill.Action.validate_action
    e_bill.Bill.Action.bill_waiting_for_recourse_payment
    e_bill.Bill.Chain.is_last_request_to_recourse_block_waiting_for_payment
    e_bill.Bill.Action.bill_waiting_for_req_to_pay e_bill.Bill.Action.bill_can_only_be_recoursed
    e_bill.Bill.Action.caller_is_holder
    e_bill.Bill.Chain.is_last_offer_to_sell_block_waiting_for_payment
    e_bill.Bill.Action.bill_is_blocked e_bill.Bill.Action.bill_waiting_for_offer_to_sell save_block
    Store.add_block
endorsed_saved = refl

process_chain_data-stale_cache_example :
    (st' : Store) × (process_chain_data env bill_id (endorsed ∷ issued ∷ []) none stored
      ≡ (ok tt, st'))
    × (st'.rows bill_id ≡ issued ∷ endorsed ∷ [])
    × (st'.cached bill_id ≡ stored.cached bill_id)
process_chain_data-stale_cache_example =
    process_chain_data-stale_cache env bill_id stored keys first (issued ∷ []) endorsed issued none
      chain_read refl issued_known refl (ap (λ m. m.0) endorsed_saved) (omega arith)

endorsed-Admissible :
    (adm : Admissible env first keys false (issued ∷ []) endorsed) × (adm.latest.id + 1 < u64_mod)
endorsed-Admissible =
    elim (validate_and_save_block-Outcome env first keys false bill_id (issued ∷ []) endorsed stored
      refl) [
        | inl (_, skipped) ↦ absurd (ground (arith, endorsed_saved))
        | inr (inl (_, fails)) ↦ absurd (ground (arith, endorsed_saved))
        | inr (inr (adm, _, _)) ↦ (adm, ground (arith, adm.latest_is_last))
      ]

process_chain_data-stores_example :
    (st' : Store) × (process_chain_data env bill_id (endorsed ∷ []) none stored ≡ (ok tt, st'))
    × (st'.rows bill_id ≡ issued ∷ endorsed ∷ [])
    × (st'.cached bill_id ≡ false)
process_chain_data-stores_example =
    process_chain_data-stores env bill_id endorsed [] none stored (issued ∷ []) keys first
      chain_read refl issued_known (refl, tt) (endorsed-Admissible, tt)
