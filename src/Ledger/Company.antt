-- ===== src/Ledger/Company.antt =====
-- core/src/blockchain/company/mod.rs: `CompanyBlock` as a `Block`, the creation of its blocks, and the
-- check of a chain that is read.
use e_bill.Prelude.{
  ℕ, ◌+◌, ◌%◌, String, Bool, true, false, not, ◌||◌, Option, none, some, List, [], ◌∷◌, Result, ok,
  err, panic, ◌>>=◌, ◌>>◌, ok_or, map_err, fail_if, u64_mod, if◌then◌else◌,
}
use e_bill.Error.{
  BlockchainError, CryptoError, io, block_invalid, blockchain_invalid, secp256k1_cryptography,
}
use e_bill.Util.Crypto.{
  BcrKeys, get_private_key_string, get_public_key, get_aggregated_public_key, aggregated_signature,
  validate_pub_key,
}
use e_bill.Blockchain.{
  Block, first_block_id, calculate_hash, validate_with_previous, verify, validate_hash,
  is_chain_valid,
}
use e_bill.Ledger.Data.{
  CompanyBlock, CompanyBlockDataToHash, CompanyBlockData, CompanyOpCode, CompanyData, CompanyKeys,
  CompanyCreateBlockData, company_op_eq,
}
use e_bill.Ledger.Env.{LedgerEnv}
use e_bill.Ledger.Identity.{encrypted_text}

abbrev is_ok : {E A : Type 0} → Result E A → Bool
is_ok (ok a) = true
is_ok (err e) = false
is_ok panic = false

-- `Block for CompanyBlock`
abbrev pub company_data_to_hash : CompanyBlock → CompanyBlockDataToHash
company_data_to_hash b = record {
  company_id = b.company_id;
  id = b.id;
  previous_hash = b.previous_hash;
  data' = b.data';
  timestamp = b.timestamp;
  public_key = b.public_key;
  signatory_node_id = b.signatory_node_id;
  op_code = b.op_code;
}

abbrev pub company_block : LedgerEnv → Block CompanyBlock CompanyOpCode CompanyBlockDataToHash
company_block V = record {
  id = λ b. b.id;
  timestamp = λ b. b.timestamp;
  op_code = λ b. b.op_code;
  op_eq = company_op_eq;
  hash = λ b. b.hash;
  previous_hash = λ b. b.previous_hash;
  signature = λ b. b.signature;
  public_key = λ b. b.public_key;
  validate = λ b. is_ok (validate_pub_key V.platform b.company_id);
  get_block_data_to_hash = company_data_to_hash;
  to_vec = V.to_vec_company_hash;
}

module _ (V : LedgerEnv) where
  open V use {platform, to_vec_company, to_vec_company_block, to_vec_text, as_bytes}

  abbrev crypto : {A : Type 0} → Result CryptoError A → Result BlockchainError A
  crypto r = map_err secp256k1_cryptography r

  -- The keys that sign, in this order: identity, company.
  unfoldable pub private_strings : BcrKeys → CompanyKeys → List String
  private_strings identity_keys company_keys =
      get_private_key_string platform identity_keys ∷ company_keys.private_key ∷ []

  unfoldable pub new :
      String
      → ℕ
      → String
      → String
      → CompanyOpCode
      → BcrKeys
      → CompanyKeys
      → ℕ
      → Result BlockchainError CompanyBlock
  unfolding private_strings
  new company_id id previous_hash encrypted op_code identity_keys company_keys timestamp =
      let keys = private_strings identity_keys company_keys in
      let signatory_node_id = get_public_key platform identity_keys in
      do
        aggregated_public_key ← crypto (get_aggregated_public_key platform keys)
        hash ← calculate_hash platform (company_block V) (record {
          company_id = company_id;
          id = id;
          previous_hash = previous_hash;
          data' = encrypted;
          timestamp = timestamp;
          public_key = aggregated_public_key;
          signatory_node_id = signatory_node_id;
          op_code = op_code;
        })
        signature ← crypto (aggregated_signature platform hash keys)
        ok (record {
          company_id = company_id;
          id = id;
          hash = hash;
          timestamp = timestamp;
          data' = encrypted;
          public_key = aggregated_public_key;
          signatory_node_id = signatory_node_id;
          previous_hash = previous_hash;
          signature = signature;
          op_code = op_code;
        })

  unfoldable pub serialized_data : CompanyBlockData → Result BlockchainError String
  serialized_data block_data = do
    bytes ← ok_or (to_vec_company_block block_data) io
    ok (platform.base58_encode bytes)

  unfoldable pub create_block_for_create :
      String
      → String
      → CompanyCreateBlockData
      → BcrKeys
      → CompanyKeys
      → ℕ
      → Result BlockchainError CompanyBlock
  unfolding encrypted_text serialized_data
  create_block_for_create company_id genesis_hash company identity_keys company_keys timestamp = do
    encrypted_data ←
        encrypted_text V (to_vec_company CompanyOpCode.create company) company_keys.public_key
    encrypted_key ←
        encrypted_text V (to_vec_text company_keys.private_key)
          (get_public_key platform identity_keys)
    serialized ← serialized_data (record { data' = encrypted_data; key = some encrypted_key })
    new company_id first_block_id genesis_hash serialized CompanyOpCode.create identity_keys
        company_keys timestamp

  -- The company's key goes to a new signatory.
  unfoldable pub key_for_signatory :
      CompanyOpCode → CompanyKeys → Option String → Result BlockchainError (Option String)
  unfolding encrypted_text
  key_for_signatory op_code company_keys none = ok none
  key_for_signatory op_code company_keys (some signatory_public_key) =
      if company_op_eq op_code CompanyOpCode.add_signatory
      then (do
        encrypted_key ← encrypted_text V (to_vec_text company_keys.private_key) signatory_public_key
        ok (some encrypted_key))
      else ok none

  unfoldable pub encrypt_data_create_block_and_validate :
      (op : CompanyOpCode)
      → String
      → CompanyBlock
      → CompanyData op
      → BcrKeys
      → CompanyKeys
      → Option String
      → ℕ
      → Result BlockchainError CompanyBlock
  unfolding encrypted_text key_for_signatory serialized_data
  encrypt_data_create_block_and_validate op_code company_id previous_block payload identity_keys
        company_keys public_key_for_keys timestamp =
      do
        encrypted_data ← encrypted_text V (to_vec_company op_code payload) company_keys.public_key
        key ← key_for_signatory op_code company_keys public_key_for_keys
        serialized ← serialized_data (record { data' = encrypted_data; key = key })
        new_block ←
            new company_id ((previous_block.id + 1) % u64_mod) previous_block.hash serialized
              op_code identity_keys company_keys timestamp
        fail_if (not (validate_with_previous platform (company_block V) new_block previous_block))
            block_invalid
        ok new_block

  -- What the `create_block_for_…` take: company id, previous block, data, keys of the identity and
  -- the company, time stamp.
  abbrev pub Creates : CompanyOpCode → Type 0
  Creates op =
      String
      → CompanyBlock
      → CompanyData op
      → BcrKeys
      → CompanyKeys
      → ℕ
      → Result BlockchainError CompanyBlock

  unfoldable pub create_block_for_update : Creates CompanyOpCode.update
  create_block_for_update company_id previous_block payload identity_keys company_keys timestamp =
      encrypt_data_create_block_and_validate CompanyOpCode.update company_id previous_block payload
        identity_keys company_keys none timestamp

  unfoldable pub create_block_for_sign_company_bill : Creates CompanyOpCode.sign_company_bill
  create_block_for_sign_company_bill company_id previous_block payload identity_keys company_keys
        timestamp =
      encrypt_data_create_block_and_validate CompanyOpCode.sign_company_bill company_id
        previous_block payload identity_keys company_keys none timestamp

  unfoldable pub create_block_for_add_signatory :
      String
      → CompanyBlock
      → CompanyData CompanyOpCode.add_signatory
      → BcrKeys
      → CompanyKeys
      → String
      → ℕ
      → Result BlockchainError CompanyBlock
  create_block_for_add_signatory company_id previous_block payload identity_keys company_keys
        signatory_public_key timestamp =
      encrypt_data_create_block_and_validate CompanyOpCode.add_signatory company_id previous_block
        payload identity_keys company_keys (some signatory_public_key) timestamp

  unfoldable pub create_block_for_remove_signatory : Creates CompanyOpCode.remove_signatory
  create_block_for_remove_signatory company_id previous_block payload identity_keys company_keys
        timestamp =
      encrypt_data_create_block_and_validate CompanyOpCode.remove_signatory company_id
        previous_block payload identity_keys company_keys none timestamp

  -- `CompanyBlockchain::new`
  unfoldable pub new_chain :
      CompanyCreateBlockData
      → BcrKeys
      → CompanyKeys
      → ℕ
      → Result BlockchainError (List CompanyBlock)
  new_chain company identity_keys company_keys timestamp =
      let genesis_hash = platform.base58_encode (as_bytes company.id) in
      do
        first_block ←
            create_block_for_create company.id genesis_hash company identity_keys company_keys
              timestamp
        ok (first_block ∷ [])

  unfoldable pub new_from_blocks : List CompanyBlock → Result BlockchainError (List CompanyBlock)
  new_from_blocks [] = err blockchain_invalid
  new_from_blocks (first ∷ rest) =
      if not (verify platform (company_block V) first)
        || not (validate_hash platform (company_block V) first)
      then err blockchain_invalid
      else if not (is_chain_valid platform (company_block V) (first ∷ rest))
      then err blockchain_invalid
      else ok (first ∷ rest)
