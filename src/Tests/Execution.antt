-- ===== src/Tests/Execution.antt =====
-- A user accepts the issued bill, as its drawee, and another node receives the block.
use e_bill.Prelude.{
  ◌++◌, ◌+◌, ◌<◌, last, u64_mod, ◌≡◌, refl, String, Bool, Option, none, some, List, [], ◌∷◌, ok,
  arith, ◌⊎◌, inl, inr,
}
use e_bill.Contact.{ContactType, IdentityPublicData, OptionalPostalAddress}
use e_bill.Util.Crypto
use e_bill.Blockchain
use e_bill.Bill.Data
use e_bill.Bill.Data.{BillBlock, BillAction, BillOpCode, BillKeys, DataType, to_public_data}
use e_bill.Handler.Store
use e_bill.Handler.Store.{Store, update}
use e_bill.Handler.Safety.{Admissible}
use e_bill.Service.Execute.Outcome.{Fails}
use e_bill.Service.Execute.Admitted.{execute_bill_action-Appends}
use e_bill.Handler.Chain.{process_chain_data}
use e_bill.Ledger.Data.{Identity, IdentityBlock, IdentityOpCode}
use e_bill.Ledger.Env.{LedgerEnv}
use e_bill.Service.State.{ServiceEnv, ServiceState, ◌>>=◌, pure}
use e_bill.Service.Fetch.{Fetched, fetch_data, BitcreditBill}
use e_bill.Service.Execute.{
  execute_bill_action, add_identity_and_company_chain_blocks_for_signed_bill_action,
}
use e_bill.Service.Execute.Reading.{Identified, ReadsData}
use e_bill.Service.Execute.Peers.{InStep, execute_bill_action-process_chain_data}
use e_bill.Tests.Sample.{env, platform, party, decode}
use e_bill.Tests.Platforms.{platform-Laws, decode-encode}
use e_bill.Tests.Blocks.{issued, accepted, bill_id, keys, key}
use e_bill.Tests.Events.{stored, first, issued_known}

abbrev pub ledger : LedgerEnv
ledger = record {
  platform = platform;
  to_vec_identity_hash = λ d. some (d.id ∷ []);
  to_vec_identity = λ op d. some (0 ∷ []);
  to_vec_company_hash = λ d. some (d.id ∷ []);
  to_vec_company = λ op d. some (0 ∷ []);
  to_vec_company_block = λ d. some (decode d.data');
  to_vec_text = λ s. some (decode s);
  as_bytes = decode;
}

abbrev pub service : ServiceEnv
service = record { bill = env; ledger = ledger; get_address_to_pay = λ b h. none }

abbrev pub drawee : Identity
drawee = record {
  node_id = "aab";
  name = "Name";
  email = "name@example.org";
  postal_address = record {
    country = some "AT";
    city = some "Vienna";
    zip = none;
    address = some "Ring 1";
  };
  date_of_birth = none;
  country_of_birth = none;
  city_of_birth = none;
  identification_number = none;
  nostr_relay = none;
  profile_picture_file = none;
  identity_document_file = none;
}

abbrev pub genesis : IdentityBlock
genesis = record {
  id = 1;
  hash = "ab";
  timestamp = 5;
  data' = "aabb";
  public_key = "aab";
  previous_hash = "aab";
  signature = "aabab";
  op_code = IdentityOpCode.create;
}

abbrev pub node : ServiceState
node = record {
  bills = stored;
  identity = some (record { identity = drawee; key_pair = key 2 });
  identity_chain = genesis ∷ [];
  contacts = λ id. none;
  companies = λ id. none;
  company_chains = λ id. [];
}

abbrev signer : IdentityPublicData
signer = to_public_data (party 2)

abbrev acceptance : BillBlock
acceptance = record accepted { timestamp = 10 }

-- The parties as the user knows them: of itself also the e-mail address.
abbrev pub current : BitcreditBill
current = record {
  id = "aaaaaaab";
  country_of_issuing = "AT";
  city_of_issuing = "Vienna";
  drawee = record (to_public_data (party 2)) { email = some "name@example.org" };
  drawer = to_public_data (party 1);
  payee = to_public_data (party 3);
  endorsee = none;
  currency = "sat";
  sum = 500;
  maturity_date = "2025-01-01";
  issue_date = "2024-01-01";
  country_of_payment = "AT";
  city_of_payment = "Vienna";
  language = "en";
  files = [];
}

abbrev fetched : Fetched
fetched = record {
  identity = record { identity = drawee; key_pair = key 2 };
  blockchain = issued ∷ [];
  bill_keys = keys;
  bill = current;
  is_paid = Bool.false;
}

fetched_here : fetch_data env bill_id node ≡ ok fetched
unfolding fetch_data Store.get_chain e_bill.Bill.Chain.new_from_blocks Blockchain.verify
    Crypto.verify Blockchain.validate_hash e_bill.Util.sha256_hash Blockchain.is_chain_valid
    Store.get_keys e_bill.Service.Fetch.get_last_version_bill
    e_bill.Bill.Chain.get_first_version_bill Blockchain.get_first_block
    e_bill.Bill.Block.get_decrypted_block_bytes Crypto.decrypt_ecies
    e_bill.Bill.Chain.get_bill_parties e_bill.Bill.Chain.last_party e_bill.Bill.Chain.last_with_op
    e_bill.Bill.Chain.flatten e_bill.Bill.Chain.max_by_key Data.op_eq Blockchain.calculate_hash
    Blockchain.get_last_version_block_with_op_code Blockchain.valid_after
    Blockchain.validate_with_previous e_bill.Service.Fetch.bill_of
    e_bill.Service.Fetch.extend_bill_chain_identity_data_from_contacts_or_identity
    e_bill.Service.Fetch.extended Crypto.from_private_key Crypto.load_keypair Crypto.message
fetched_here = refl

identified : Identified env signer (key 2) (record { identity = drawee; key_pair = key 2 })
unfolding Crypto.get_public_key
identified = (refl, λ e. refl)

reads_back : ReadsData service platform-Laws BillAction.accept fetched signer (key 2) 10
unfolding e_bill.Service.Block.block_data e_bill.Service.Fetch.get_bill_signing_keys
reads_back = λ a. record {
  payload_back = λ e. ground arith;
  block_back = λ encrypted key e. (none, ground (arith, decode-encode encrypted));
}

accepted_here :
    (execute_bill_action service bill_id BillAction.accept signer (key 2) 10 node).0
    ≡ ok (issued ∷ acceptance ∷ [])
unfolding fetch_data Store.get_chain e_bill.Bill.Chain.new_from_blocks Blockchain.verify
    Crypto.verify Blockchain.validate_hash e_bill.Util.sha256_hash Blockchain.is_chain_valid
    Store.get_keys e_bill.Service.Fetch.get_last_version_bill
    e_bill.Bill.Chain.get_first_version_bill Blockchain.get_first_block
    e_bill.Bill.Block.get_decrypted_block_bytes Crypto.decrypt_ecies
    e_bill.Bill.Chain.get_bill_parties e_bill.Bill.Chain.last_party e_bill.Bill.Chain.last_with_op
    e_bill.Bill.Chain.flatten e_bill.Bill.Chain.max_by_key Data.op_eq Blockchain.calculate_hash
    Blockchain.get_last_version_block_with_op_code Blockchain.valid_after
    Blockchain.validate_with_previous e_bill.Service.Fetch.bill_of
    e_bill.Service.Fetch.extend_bill_chain_identity_data_from_contacts_or_identity
    e_bill.Service.Fetch.extended Crypto.from_private_key Crypto.load_keypair Crypto.message
    execute_bill_action e_bill.Service.Execute.execute_data e_bill.Bill.Action.validate
    e_bill.Bill.Action.validate_state e_bill.Bill.Action.not_recoursed_to_the_end
    e_bill.Bill.Action.recourse_request_not_expired e_bill.Bill.Action.validate_action
    e_bill.Bill.Action.bill_is_blocked e_bill.Bill.Action.bill_waiting_for_req_to_pay
    e_bill.Bill.Action.bill_waiting_for_offer_to_sell
    e_bill.Bill.Action.bill_waiting_for_recourse_payment e_bill.Bill.Action.latest_op
    Blockchain.get_latest_block e_bill.Bill.Chain.is_last_offer_to_sell_block_waiting_for_payment
    e_bill.Bill.Chain.is_last_request_to_recourse_block_waiting_for_payment
    e_bill.Bill.Action.bill_can_only_be_recoursed e_bill.Bill.Action.can_only_be_recoursed
    e_bill.Bill.Action.not_only_recourse e_bill.Bill.Action.expired_request_to_pay
    e_bill.Bill.Action.expired_request_to_accept e_bill.Bill.Chain.exists_with_op
    Blockchain.block_with_operation_code_exists e_bill.Service.Execute.create_blocks_for_bill_action
    e_bill.Service.Fetch.get_bill_signing_keys e_bill.Service.Block.new_block
    e_bill.Service.Block.address_for e_bill.Service.Block.block_data
    e_bill.Service.Block.create_block e_bill.Bill.Create.create_block_for_accept
    e_bill.Bill.Create.encrypt_data_create_block_and_validate e_bill.Bill.Create.encrypted_text
    e_bill.Bill.Create.serialized_data e_bill.Bill.Create.new Crypto.encrypt_ecies
    Crypto.get_public_key Crypto.get_private_key_string Crypto.get_aggregated_public_key
    Crypto.aggregated_signature Crypto.load_keypairs Crypto.combine_all Crypto.combine_from
    Crypto.add_all Crypto.add_from e_bill.Bill.Validate.validate_data
    e_bill.Bill.Validate.validate_accept e_bill.Bill.Validate.validate_identity
    Crypto.validate_pub_key e_bill.Prelude.trim_is_empty e_bill.Contact.validate_address
    e_bill.Util.is_blank e_bill.Bill.Validate.validate_signing
    e_bill.Bill.Validate.validate_signatory e_bill.Service.Execute.validate_and_add_block
    Blockchain.try_add_block Store.add_block Store.add_block_after Store.create_next
    e_bill.Service.Execute.add_identity_and_company_chain_blocks_for_signed_bill_action
    e_bill.Service.Execute.add_blocks_by_type
    e_bill.Service.Execute.add_block_to_identity_chain_for_signed_bill_action
    e_bill.Service.Execute.latest_identity_block e_bill.Service.Execute.add_identity_block
    e_bill.Ledger.Table.latest e_bill.Ledger.Table.add_identity_block
    e_bill.Ledger.Table.insert_after e_bill.Ledger.Table.create_next
    e_bill.Ledger.Identity.create_block_for_sign_person_bill
    e_bill.Ledger.Identity.encrypt_data_create_block_and_validate
    e_bill.Ledger.Identity.encrypted_text e_bill.Ledger.Identity.new Crypto.signature
accepted_here = refl

small : (latest : BillBlock) → last (stored.rows bill_id) ≡ some latest → latest.id + 1 < u64_mod
small latest e = ground arith

execute_bill_action-process_chain_data_example :
    (block : BillBlock) × (issued ∷ acceptance ∷ [] ≡ stored.rows bill_id ++ block ∷ [])
    × ((peer : Store) (sent : Option BillKeys)
        → InStep bill_id stored peer
        → (peer' : Store) × (process_chain_data env bill_id (block ∷ []) sent peer ≡ (ok tt, peer'))
          × (peer'.rows bill_id
              ≡ (execute_bill_action service bill_id BillAction.accept signer
                    (key 2)
                    10
                    node).1.bills.rows
                  bill_id)
          × (peer'.cached bill_id ≡ Bool.false))
unfolding Crypto.get_private_key_string Crypto.get_public_key
execute_bill_action-process_chain_data_example =
    execute_bill_action-process_chain_data service platform-Laws bill_id BillAction.accept signer
      (key 2) 10 node (key 4) fetched first fetched_here issued_known refl refl identified
      reads_back (issued ∷ acceptance ∷ []) accepted_here small

execute_bill_action-Appends_example :
    let (r, st') = execute_bill_action service bill_id BillAction.accept signer (key 2) 10 node in
    (st'.bills ≡ stored) × Fails r
    ⊎ (block : BillBlock) × (block.bill_id ≡ bill_id)
      × Admissible env first keys Bool.false (issued ∷ []) block
      × (st'.bills
          ≡ record stored { rows = update stored.rows bill_id (stored.rows bill_id ++ block ∷ []) })
      × (Fails r ⊎ (r ≡ ok (stored.rows bill_id ++ block ∷ [])))
      × ((r, st')
          ≡ (add_identity_and_company_chain_blocks_for_signed_bill_action service signer bill_id
                  block
                  (key 2)
                  (key 2)
                  10
                >>= λ done. pure (stored.rows bill_id ++ block ∷ []))
              (record node {
                bills = record stored {
                  rows = update stored.rows bill_id (stored.rows bill_id ++ block ∷ []);
                };
              }))
unfolding Crypto.get_private_key_string Crypto.get_public_key
execute_bill_action-Appends_example =
    execute_bill_action-Appends service platform-Laws bill_id BillAction.accept signer (key 2) 10
      node (key 4) fetched first fetched_here issued_known refl refl identified reads_back
