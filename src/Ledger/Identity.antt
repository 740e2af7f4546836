-- ===== src/Ledger/Identity.antt =====
-- core/src/blockchain/identity/mod.rs: `IdentityBlock` as a `Block`, and the creation of its blocks.
use e_bill.Prelude.{
  ℕ, ◌+◌, ◌%◌, String, true, not, Option, List, [], ◌∷◌, Result, ok, ◌>>=◌, ◌>>◌, ok_or, map_err,
  fail_if, u64_mod,
}
use e_bill.Platform.{Bytes}
use e_bill.Error.{BlockchainError, CryptoError, io, block_invalid, secp256k1_cryptography}
use e_bill.Util.Crypto.{BcrKeys, get_private_key_string, get_public_key, signature, encrypt_ecies}
use e_bill.Blockchain.{Block, first_block_id, calculate_hash, validate_with_previous}
use e_bill.Ledger.Data.{
  IdentityBlock, IdentityBlockDataToHash, IdentityOpCode, IdentityData, IdentityCreateBlockData,
  identity_op_eq,
}
use e_bill.Ledger.Env.{LedgerEnv}

-- `Block for IdentityBlock`
abbrev pub identity_data_to_hash : IdentityBlock → IdentityBlockDataToHash
identity_data_to_hash b = record {
  id = b.id;
  previous_hash = b.previous_hash;
  data' = b.data';
  timestamp = b.timestamp;
  public_key = b.public_key;
  op_code = b.op_code;
}

abbrev pub identity_block : LedgerEnv → Block IdentityBlock IdentityOpCode IdentityBlockDataToHash
identity_block V = record {
  id = λ b. b.id;
  timestamp = λ b. b.timestamp;
  op_code = λ b. b.op_code;
  op_eq = identity_op_eq;
  hash = λ b. b.hash;
  previous_hash = λ b. b.previous_hash;
  signature = λ b. b.signature;
  public_key = λ b. b.public_key;
  validate = λ b. true;
  get_block_data_to_hash = identity_data_to_hash;
  to_vec = V.to_vec_identity_hash;
}

module _ (V : LedgerEnv) where
  open V use {platform, to_vec_identity, as_bytes}

  abbrev crypto : {A : Type 0} → Result CryptoError A → Result BlockchainError A
  crypto r = map_err secp256k1_cryptography r

  unfoldable pub new :
      ℕ → String → String → IdentityOpCode → BcrKeys → ℕ → Result BlockchainError IdentityBlock
  new id previous_hash encrypted op_code keys timestamp = do
    hash ← calculate_hash platform (identity_block V) (record {
      id = id;
      previous_hash = previous_hash;
      data' = encrypted;
      timestamp = timestamp;
      public_key = get_public_key platform keys;
      op_code = op_code;
    })
    sig ← crypto (signature platform hash (get_private_key_string platform keys))
    ok (record {
      id = id;
      hash = hash;
      timestamp = timestamp;
      data' = encrypted;
      public_key = get_public_key platform keys;
      previous_hash = previous_hash;
      signature = sig;
      op_code = op_code;
    })

  -- `util::base58_encode(&util::crypto::encrypt_ecies(bytes, public_key)?)`
  unfoldable pub encrypted_text : Option Bytes → String → Result BlockchainError String
  encrypted_text serialized public_key = do
    bytes ← ok_or serialized io
    encrypted ← crypto (encrypt_ecies platform bytes public_key)
    ok (platform.base58_encode encrypted)

  unfoldable pub create_block_for_create :
      String → IdentityCreateBlockData → BcrKeys → ℕ → Result BlockchainError IdentityBlock
  unfolding encrypted_text
  create_block_for_create genesis_hash identity keys timestamp = do
    encrypted_data ←
        encrypted_text (to_vec_identity IdentityOpCode.create identity)
          (get_public_key platform keys)
    new first_block_id genesis_hash encrypted_data IdentityOpCode.create keys timestamp

  unfoldable pub encrypt_data_create_block_and_validate :
      (op : IdentityOpCode)
      → IdentityBlock
      → IdentityData op
      → BcrKeys
      → ℕ
      → Result BlockchainError IdentityBlock
  unfolding encrypted_text
  encrypt_data_create_block_and_validate op_code previous_block payload keys timestamp = do
    encrypted_data ← encrypted_text (to_vec_identity op_code payload) (get_public_key platform keys)
    new_block ←
        new ((previous_block.id + 1) % u64_mod) previous_block.hash encrypted_data op_code keys
          timestamp
    fail_if (not (validate_with_previous platform (identity_block V) new_block previous_block))
        block_invalid
    ok new_block

  -- What each `create_block_for_…` takes: previous block, data, keys, time stamp.
  abbrev pub Creates : IdentityOpCode → Type 0
  Creates op = IdentityBlock → IdentityData op → BcrKeys → ℕ → Result BlockchainError IdentityBlock

  unfoldable pub create_block_for_update : Creates IdentityOpCode.update
  create_block_for_update = encrypt_data_create_block_and_validate IdentityOpCode.update

  unfoldable pub create_block_for_sign_person_bill : Creates IdentityOpCode.sign_person_bill
  create_block_for_sign_person_bill =
      encrypt_data_create_block_and_validate IdentityOpCode.sign_person_bill

  unfoldable pub create_block_for_sign_company_bill : Creates IdentityOpCode.sign_company_bill
  create_block_for_sign_company_bill =
      encrypt_data_create_block_and_validate IdentityOpCode.sign_company_bill

  unfoldable pub create_block_for_create_company : Creates IdentityOpCode.create_company
  create_block_for_create_company =
      encrypt_data_create_block_and_validate IdentityOpCode.create_company

  unfoldable pub create_block_for_add_signatory : Creates IdentityOpCode.add_signatory
  create_block_for_add_signatory =
      encrypt_data_create_block_and_validate IdentityOpCode.add_signatory

  unfoldable pub create_block_for_remove_signatory : Creates IdentityOpCode.remove_signatory
  create_block_for_remove_signatory =
      encrypt_data_create_block_and_validate IdentityOpCode.remove_signatory

  -- `IdentityBlockchain::new`
  unfoldable pub new_chain :
      IdentityCreateBlockData → BcrKeys → ℕ → Result BlockchainError (List IdentityBlock)
  new_chain identity keys timestamp =
      let genesis_hash = platform.base58_encode (as_bytes (get_public_key platform keys)) in
      do
        first_block ← create_block_for_create genesis_hash identity keys timestamp
        ok (first_block ∷ [])
