-- ===== src/Tests/Creation.antt =====
-- The theorems on signatures and created blocks, at the acceptance of an issued bill.
use e_bill.Prelude.{
  ℕ, ◌≡◌, refl, ap, String, true, Option, none, some, List, [], ◌∷◌, map, arith, Result, ok,
  u64_mod,
}
use e_bill.Util.Crypto
use e_bill.Util.Crypto.{
  BcrKeys, get_private_key_string, get_public_key, get_aggregated_public_key, aggregated_signature,
  combine_pub_keys, encrypt_ecies, decrypt_ecies,
}
use e_bill.Util.Crypto.Signatures.{
  aggregated_signature-verify, combine_pub_keys-get_aggregated_public_key,
}
use e_bill.Blockchain
use e_bill.Blockchain.Links.{Follows}
use e_bill.Bill.Data.{BillOpCode, BillAction, DataType}
use e_bill.Bill.Validate.{validate_data}
use e_bill.Bill.Block.{bill_block}
use e_bill.Bill.Signer.{signed_by, verify_and_get_signer}
use e_bill.Bill.Create.{encrypt_data_create_block_and_validate}
use e_bill.Bill.Create.RoundTrip.{ReadsBack, bill_key_strings, create-verify_and_get_signer}
use e_bill.Tests.Sample.{env, platform, sample}
use e_bill.Tests.Platforms.{platform-Laws, decode-encode}
use e_bill.Tests.Blocks.{issued, accepted, bill_id, key}

two_keys_sign : aggregated_signature platform "ab" ("aab" ∷ "aaaab" ∷ []) ≡ ok "aaaaaabab"
unfolding aggregated_signature
two_keys_sign = refl

aggregated_signature-verify_example :
    (public_key : String) × (get_aggregated_public_key platform ("aab" ∷ "aaaab" ∷ [])
      ≡ ok public_key)
    × (Crypto.verify platform "ab" "aaaaaabab" public_key ≡ ok true)
aggregated_signature-verify_example =
    aggregated_signature-verify platform platform-Laws "ab" ("aab" ∷ "aaaab" ∷ []) two_keys_sign

two_keys_aggregate :
    get_aggregated_public_key platform (map (get_private_key_string platform) (key 2 ∷ key 4 ∷ []))
    ≡ ok "aaaaaab"
unfolding get_aggregated_public_key get_private_key_string
two_keys_aggregate = refl

combine_pub_keys-get_aggregated_public_key_example :
    combine_pub_keys platform (map (get_public_key platform) (key 2 ∷ key 4 ∷ [])) ≡ ok "aaaaaab"
combine_pub_keys-get_aggregated_public_key_example =
    combine_pub_keys-get_aggregated_public_key platform platform-Laws (key 2 ∷ key 4 ∷ [])
      two_keys_aggregate

accept_back : ReadsBack env platform-Laws DataType.accept (sample DataType.accept)
accept_back = record {
  payload_back = λ e. ground arith;
  block_back = λ encrypted key e. (none, ground (arith, decode-encode encrypted));
}

acceptance_created :
    encrypt_data_create_block_and_validate env DataType.accept bill_id issued
      (sample DataType.accept)
      (key 2)
      none
      (key 4)
      none
      20
      BillOpCode.accept
    ≡ ok accepted
unfolding encrypt_data_create_block_and_validate encrypt_ecies get_public_key e_bill.Bill.Create.new
    get_aggregated_public_key get_private_key_string Blockchain.calculate_hash aggregated_signature
    Blockchain.validate_with_previous Blockchain.validate_hash e_bill.Util.sha256_hash
    Blockchain.verify Crypto.verify
acceptance_created = refl

acceptance_valid : validate_data platform DataType.accept (sample DataType.accept) ≡ ok tt
unfolding validate_data e_bill.Bill.Validate.validate_identity Crypto.validate_pub_key
    e_bill.Prelude.trim_is_empty e_bill.Contact.validate_address e_bill.Util.is_blank
    e_bill.Bill.Validate.validate_signing e_bill.Bill.Validate.validate_signatory
acceptance_valid = refl

acceptance_named :
    signed_by BillOpCode.accept (sample DataType.accept)
    ≡ (get_public_key platform (key 2), none, some BillAction.accept)
unfolding signed_by get_public_key
acceptance_named = refl

create-verify_and_get_signer_example :
    Follows platform (bill_block env) issued accepted
    × (verify_and_get_signer env accepted (bill_key_strings env platform-Laws (key 4))
        ≡ ok (get_public_key platform (key 2), some BillAction.accept))
create-verify_and_get_signer_example =
    create-verify_and_get_signer env platform-Laws BillOpCode.accept (sample DataType.accept)
      bill_id issued (key 2) none (key 4) none 20 accept_back acceptance_created acceptance_valid
      acceptance_named
