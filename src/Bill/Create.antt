-- ===== src/Bill/Create.antt =====
-- core/src/blockchain/bill/block.rs: the creation of signed bill blocks.
pub mod RoundTrip
use e_bill.Prelude.{
  ℕ, ◌+◌, ◌%◌, String, not, ◌||◌, Option, none, some, List, [], ◌∷◌, Result, ok, ◌>>=◌, ◌>>◌, ok_or,
  map_err, fail_if, u64_mod, if◌then◌else◌,
}
use e_bill.Error.{BlockchainError, CryptoError, io, block_invalid, secp256k1_cryptography}
use e_bill.Util.Crypto.{
  BcrKeys, get_private_key_string, get_public_key, get_aggregated_public_key, aggregated_signature,
  encrypt_ecies,
}
use e_bill.Blockchain.{first_block_id, calculate_hash, validate_with_previous}
use e_bill.Bill.Data.{
  BillBlock, BillOpCode, BillBlockData, DataType, Data, BillIssueBlockData, op_eq,
}
use e_bill.Bill.Env.{BillEnv}
use e_bill.Bill.Block.{bill_block}

-- The keys that sign, in this order: identity, company, bill.
unfoldable pub signing_keys : {A : Type 0} → A → Option A → A → List A
signing_keys identity none bill = identity ∷ bill ∷ []
signing_keys identity (some company) bill = identity ∷ company ∷ bill ∷ []

module _ (V : BillEnv) where
  open V use {platform, to_vec_block, to_vec, to_vec_text}

  abbrev crypto : {A : Type 0} → Result CryptoError A → Result BlockchainError A
  crypto r = map_err secp256k1_cryptography r

  private_strings : BcrKeys → Option BcrKeys → BcrKeys → List String
  unfolding signing_keys
  private_strings identity company bill =
      signing_keys (get_private_key_string platform identity)
        (elim company [ none ↦ none | some c ↦ some (get_private_key_string platform c) ])
        (get_private_key_string platform bill)

  unfoldable pub new :
      String
      → ℕ
      → String
      → String
      → BillOpCode
      → BcrKeys
      → Option BcrKeys
      → BcrKeys
      → ℕ
      → Result BlockchainError BillBlock
  unfolding private_strings
  new bill_id id previous_hash encrypted op_code identity_keys company_keys bill_keys timestamp =
      let keys = private_strings identity_keys company_keys bill_keys in
      do
        aggregated_public_key ← crypto (get_aggregated_public_key platform keys)
        hash ← calculate_hash platform (bill_block V) (record {
          bill_id = bill_id;
          id = id;
          previous_hash = previous_hash;
          data' = encrypted;
          timestamp = timestamp;
          public_key = aggregated_public_key;
          op_code = op_code;
        })
        signature ← crypto (aggregated_signature platform hash keys)
        ok (record {
          bill_id = bill_id;
          id = id;
          hash = hash;
          previous_hash = previous_hash;
          timestamp = timestamp;
          data' = encrypted;
          public_key = aggregated_public_key;
          signature = signature;
          op_code = op_code;
        })

  -- `util::base58_encode(&util::crypto::encrypt_ecies(bytes, public_key)?)`
  unfoldable pub encrypted_text : Option (List ℕ) → String → Result BlockchainError String
  encrypted_text serialized public_key = do
    bytes ← ok_or serialized io
    encrypted ← crypto (encrypt_ecies platform bytes public_key)
    ok (platform.base58_encode encrypted)

  unfoldable pub serialized_data : BillBlockData → Result BlockchainError String
  serialized_data block_data = do
    bytes ← ok_or (to_vec_block block_data) io
    ok (platform.base58_encode bytes)

  unfoldable pub create_block_for_issue :
      String
      → String
      → BillIssueBlockData
      → BcrKeys
      → Option BcrKeys
      → BcrKeys
      → ℕ
      → Result BlockchainError BillBlock
  unfolding encrypted_text serialized_data
  create_block_for_issue bill_id genesis_hash bill drawer_keys drawer_company_keys bill_keys
        timestamp =
      let receiver : BcrKeys = elim drawer_company_keys [ none ↦ drawer_keys | some c ↦ c ] in
      do
        encrypted_key ←
            encrypted_text (to_vec_text (get_private_key_string platform bill_keys))
              (get_public_key platform receiver)
        encrypted_bill_data ←
            encrypted_text (to_vec DataType.issue bill) (get_public_key platform bill_keys)
        serialized ←
            serialized_data (record { data' = encrypted_bill_data; key = some encrypted_key })
        new bill_id first_block_id genesis_hash serialized BillOpCode.issue drawer_keys
            drawer_company_keys bill_keys timestamp

  -- The bill's key goes to the new holder of an endorsed, sold or minted bill.
  key_for_holder : BillOpCode → BcrKeys → Option String → Result BlockchainError (Option String)
  unfolding encrypted_text
  key_for_holder op_code bill_keys none = ok none
  key_for_holder op_code bill_keys (some new_holder) =
      if op_eq op_code BillOpCode.endorse
        || op_eq op_code BillOpCode.sell
        || op_eq op_code BillOpCode.mint
      then (do
        encrypted_key ←
            encrypted_text (to_vec_text (get_private_key_string platform bill_keys)) new_holder
        ok (some encrypted_key))
      else ok none

  unfoldable pub encrypt_data_create_block_and_validate :
      (t : DataType)
      → String
      → BillBlock
      → Data t
      → BcrKeys
      → Option BcrKeys
      → BcrKeys
      → Option String
      → ℕ
      → BillOpCode
      → Result BlockchainError BillBlock
  unfolding encrypted_text key_for_holder serialized_data
  encrypt_data_create_block_and_validate t bill_id previous_block payload identity_keys company_keys
        bill_keys public_key_for_keys timestamp op_code =
      do
        encrypted_data ← encrypted_text (to_vec t payload) (get_public_key platform bill_keys)
        key ← key_for_holder op_code bill_keys public_key_for_keys
        serialized ← serialized_data (record { data' = encrypted_data; key = key })
        new_block ←
            new bill_id ((previous_block.id + 1) % u64_mod) previous_block.hash serialized op_code
              identity_keys company_keys bill_keys timestamp
        fail_if (not (validate_with_previous platform (bill_block V) new_block previous_block))
            block_invalid
        ok new_block

  -- What each `create_block_for_…` takes: bill id, previous block, data, keys of the identity, the
  -- company and the bill, time stamp.
  abbrev pub Creates : DataType → Type 0
  Creates t =
      String
      → BillBlock
      → Data t
      → BcrKeys
      → Option BcrKeys
      → BcrKeys
      → ℕ
      → Result BlockchainError BillBlock

  unfoldable pub create_block_for_reject_to_accept : Creates DataType.reject
  create_block_for_reject_to_accept bill_id previous_block payload identity_keys company_keys
        bill_keys timestamp =
      encrypt_data_create_block_and_validate DataType.reject bill_id previous_block payload
        identity_keys company_keys bill_keys none timestamp BillOpCode.reject_to_accept

  unfoldable pub create_block_for_reject_to_pay : Creates DataType.reject
  create_block_for_reject_to_pay bill_id previous_block payload identity_keys company_keys bill_keys
        timestamp =
      encrypt_data_create_block_and_validate DataType.reject bill_id previous_block payload
        identity_keys company_keys bill_keys none timestamp BillOpCode.reject_to_pay

  unfoldable pub create_block_for_reject_to_buy : Creates DataType.reject
  create_block_for_reject_to_buy bill_id previous_block payload identity_keys company_keys bill_keys
        timestamp =
      encrypt_data_create_block_and_validate DataType.reject bill_id previous_block payload
        identity_keys company_keys bill_keys none timestamp BillOpCode.reject_to_buy

  unfoldable pub create_block_for_reject_to_pay_recourse : Creates DataType.reject
  create_block_for_reject_to_pay_recourse bill_id previous_block payload identity_keys company_keys
        bill_keys timestamp =
      encrypt_data_create_block_and_validate DataType.reject bill_id previous_block payload
        identity_keys company_keys bill_keys none timestamp BillOpCode.reject_to_pay_recourse

  unfoldable pub create_block_for_request_recourse : Creates DataType.request_recourse
  create_block_for_request_recourse bill_id previous_block payload identity_keys company_keys
        bill_keys timestamp =
      encrypt_data_create_block_and_validate DataType.request_recourse bill_id previous_block
        payload identity_keys company_keys bill_keys none timestamp BillOpCode.request_recourse

  unfoldable pub create_block_for_recourse : Creates DataType.recourse
  create_block_for_recourse bill_id previous_block payload identity_keys company_keys bill_keys
        timestamp =
      encrypt_data_create_block_and_validate DataType.recourse bill_id previous_block payload
        identity_keys company_keys bill_keys none timestamp BillOpCode.recourse

  unfoldable pub create_block_for_accept : Creates DataType.accept
  create_block_for_accept bill_id previous_block payload identity_keys company_keys bill_keys
        timestamp =
      encrypt_data_create_block_and_validate DataType.accept bill_id previous_block payload
        identity_keys company_keys bill_keys none timestamp BillOpCode.accept

  unfoldable pub create_block_for_request_to_pay : Creates DataType.request_to_pay
  create_block_for_request_to_pay bill_id previous_block payload identity_keys company_keys
        bill_keys timestamp =
      encrypt_data_create_block_and_validate DataType.request_to_pay bill_id previous_block payload
        identity_keys company_keys bill_keys none timestamp BillOpCode.request_to_pay

  unfoldable pub create_block_for_request_to_accept : Creates DataType.request_to_accept
  create_block_for_request_to_accept bill_id previous_block payload identity_keys company_keys
        bill_keys timestamp =
      encrypt_data_create_block_and_validate DataType.request_to_accept bill_id previous_block
        payload identity_keys company_keys bill_keys none timestamp BillOpCode.request_to_accept

  unfoldable pub create_block_for_mint : Creates DataType.mint
  create_block_for_mint bill_id previous_block payload identity_keys company_keys bill_keys
        timestamp =
      encrypt_data_create_block_and_validate DataType.mint bill_id previous_block payload
        identity_keys company_keys bill_keys (some payload.endorsee.node_id) timestamp
        BillOpCode.mint

  unfoldable pub create_block_for_offer_to_sell : Creates DataType.offer_to_sell
  create_block_for_offer_to_sell bill_id previous_block payload identity_keys company_keys bill_keys
        timestamp =
      encrypt_data_create_block_and_validate DataType.offer_to_sell bill_id previous_block payload
        identity_keys company_keys bill_keys none timestamp BillOpCode.offer_to_sell

  unfoldable pub create_block_for_sell : Creates DataType.sell
  create_block_for_sell bill_id previous_block payload identity_keys company_keys bill_keys
        timestamp =
      encrypt_data_create_block_and_validate DataType.sell bill_id previous_block payload
        identity_keys company_keys bill_keys (some payload.buyer.node_id) timestamp BillOpCode.sell

  unfoldable pub create_block_for_endorse : Creates DataType.endorse
  create_block_for_endorse bill_id previous_block payload identity_keys company_keys bill_keys
        timestamp =
      encrypt_data_create_block_and_validate DataType.endorse bill_id previous_block payload
        identity_keys company_keys bill_keys (some payload.endorsee.node_id) timestamp
        BillOpCode.endorse
