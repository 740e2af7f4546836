-- ===== src/Bill/Block.antt =====
-- core/src/blockchain/bill/block.rs: `BillBlock` as a `Block`, the decryption of its data, and what
-- is read from one block.
use e_bill.Prelude.{
  String, Bool, true, false, Option, none, some, List, [], ◌∷◌, Result, ok, ◌>>=◌, ok_or, map_err,
  if◌then◌else◌, any, ◌==◌,
}
use e_bill.Error.{BlockchainError, io, base58_decode_error, secp256k1_cryptography}
use e_bill.Util.Crypto.{decrypt_ecies}
use e_bill.Blockchain.{Block}
use e_bill.Bill.Data.{
  BillBlock, BillOpCode, BillBlockDataToHash, BillKeys, DataType, Data, HolderFromBlock, op_eq,
}
use e_bill.Bill.Env.{BillEnv}

abbrev is_some : {A : Type 0} → Option A → Bool
is_some none = false
is_some (some a) = true

-- `Block for BillBlock`
abbrev pub block_data_to_hash : BillBlock → BillBlockDataToHash
block_data_to_hash b = record {
  bill_id = b.bill_id;
  id = b.id;
  previous_hash = b.previous_hash;
  data' = b.data';
  timestamp = b.timestamp;
  public_key = b.public_key;
  op_code = b.op_code;
}

abbrev pub bill_block : BillEnv → Block BillBlock BillOpCode BillBlockDataToHash
bill_block V = record {
  id = λ b. b.id;
  timestamp = λ b. b.timestamp;
  op_code = λ b. b.op_code;
  op_eq = op_eq;
  hash = λ b. b.hash;
  previous_hash = λ b. b.previous_hash;
  signature = λ b. b.signature;
  public_key = λ b. b.public_key;
  validate = λ b. is_some (V.platform.base58_decode b.bill_id);
  get_block_data_to_hash = block_data_to_hash;
  to_vec = V.to_vec_hash;
}

-- A `HashSet` as a list without repetitions.
unfoldable pub insert : String → List String → List String
insert node nodes = if any (λ n. n == node) nodes then nodes else node ∷ nodes

module _ (V : BillEnv) where
  open V use {platform, from_slice_block, from_slice}

  unfoldable pub get_decrypted_block_bytes :
      (t : DataType) → BillBlock → BillKeys → Result BlockchainError (Data t)
  get_decrypted_block_bytes t block bill_keys = do
    bytes ← ok_or (platform.base58_decode block.data') base58_decode_error
    block_data ← ok_or (from_slice_block bytes) io
    decoded_data_bytes ← ok_or (platform.base58_decode block_data.data') base58_decode_error
    decrypted_bytes ←
        map_err secp256k1_cryptography
          (decrypt_ecies platform decoded_data_bytes bill_keys.private_key)
    ok_or (from_slice t decrypted_bytes) io

  -- `match self.op_code` in get_nodes_from_block
  nodes_of : BillOpCode → BillBlock → BillKeys → Result BlockchainError (List String)
  unfolding insert
  nodes_of BillOpCode.issue b k = do
    d ← get_decrypted_block_bytes DataType.issue b k
    ok (insert d.drawee.node_id (insert d.payee.node_id (insert d.drawer.node_id [])))
  nodes_of BillOpCode.endorse b k = do
    d ← get_decrypted_block_bytes DataType.endorse b k
    ok (insert d.endorser.node_id (insert d.endorsee.node_id []))
  nodes_of BillOpCode.mint b k = do
    d ← get_decrypted_block_bytes DataType.mint b k
    ok (insert d.endorser.node_id (insert d.endorsee.node_id []))
  nodes_of BillOpCode.request_to_accept b k = do
    d ← get_decrypted_block_bytes DataType.request_to_accept b k
    ok (insert d.requester.node_id [])
  nodes_of BillOpCode.accept b k = do
    d ← get_decrypted_block_bytes DataType.accept b k
    ok (insert d.accepter.node_id [])
  nodes_of BillOpCode.request_to_pay b k = do
    d ← get_decrypted_block_bytes DataType.request_to_pay b k
    ok (insert d.requester.node_id [])
  nodes_of BillOpCode.offer_to_sell b k = do
    d ← get_decrypted_block_bytes DataType.offer_to_sell b k
    ok (insert d.seller.node_id (insert d.buyer.node_id []))
  nodes_of BillOpCode.sell b k = do
    d ← get_decrypted_block_bytes DataType.sell b k
    ok (insert d.seller.node_id (insert d.buyer.node_id []))
  nodes_of BillOpCode.request_recourse b k = do
    d ← get_decrypted_block_bytes DataType.request_recourse b k
    ok (insert d.recoursee.node_id (insert d.recourser.node_id []))
  nodes_of BillOpCode.recourse b k = do
    d ← get_decrypted_block_bytes DataType.recourse b k
    ok (insert d.recoursee.node_id (insert d.recourser.node_id []))
  nodes_of _ b k = do
    d ← get_decrypted_block_bytes DataType.reject b k
    ok (insert d.rejecter.node_id [])

  -- The order of a `HashSet`'s elements is not specified; here it is the last inserted first.
  unfoldable pub get_nodes_from_block : BillBlock → BillKeys → Result BlockchainError (List String)
  unfolding nodes_of
  get_nodes_from_block block bill_keys = nodes_of block.op_code block bill_keys

  beneficiary_of : BillOpCode → BillBlock → BillKeys → Result BlockchainError (Option String)
  beneficiary_of BillOpCode.sell b k = do
    d ← get_decrypted_block_bytes DataType.sell b k
    ok (some d.seller.node_id)
  beneficiary_of BillOpCode.recourse b k = do
    d ← get_decrypted_block_bytes DataType.recourse b k
    ok (some d.recourser.node_id)
  beneficiary_of _ b k = ok none

  unfoldable pub get_beneficiary_from_block :
      BillBlock → BillKeys → Result BlockchainError (Option String)
  unfolding beneficiary_of
  get_beneficiary_from_block block bill_keys = beneficiary_of block.op_code block bill_keys

  request_beneficiary_of :
      BillOpCode → BillBlock → BillKeys → Result BlockchainError (Option String)
  request_beneficiary_of BillOpCode.offer_to_sell b k = do
    d ← get_decrypted_block_bytes DataType.offer_to_sell b k
    ok (some d.seller.node_id)
  request_beneficiary_of BillOpCode.request_recourse b k = do
    d ← get_decrypted_block_bytes DataType.request_recourse b k
    ok (some d.recourser.node_id)
  request_beneficiary_of BillOpCode.request_to_pay b k = do
    d ← get_decrypted_block_bytes DataType.request_to_pay b k
    ok (some d.requester.node_id)
  request_beneficiary_of _ b k = ok none

  unfoldable pub get_beneficiary_from_request_funds_block :
      BillBlock → BillKeys → Result BlockchainError (Option String)
  unfolding request_beneficiary_of
  get_beneficiary_from_request_funds_block block bill_keys =
      request_beneficiary_of block.op_code block bill_keys

  unfoldable pub holder_of :
      BillOpCode → BillBlock → BillKeys → Result BlockchainError (Option HolderFromBlock)
  holder_of BillOpCode.issue b k = do
    d ← get_decrypted_block_bytes DataType.issue b k
    ok (some (record { holder = d.payee; signer = d.drawer; signatory = d.signatory }))
  holder_of BillOpCode.endorse b k = do
    d ← get_decrypted_block_bytes DataType.endorse b k
    ok (some (record { holder = d.endorsee; signer = d.endorser; signatory = d.signatory }))
  holder_of BillOpCode.mint b k = do
    d ← get_decrypted_block_bytes DataType.mint b k
    ok (some (record { holder = d.endorsee; signer = d.endorser; signatory = d.signatory }))
  holder_of BillOpCode.sell b k = do
    d ← get_decrypted_block_bytes DataType.sell b k
    ok (some (record { holder = d.buyer; signer = d.seller; signatory = d.signatory }))
  holder_of BillOpCode.recourse b k = do
    d ← get_decrypted_block_bytes DataType.recourse b k
    ok (some (record { holder = d.recoursee; signer = d.recourser; signatory = d.signatory }))
  holder_of _ b k = ok none

  unfoldable pub get_holder_from_block :
      BillBlock → BillKeys → Result BlockchainError (Option HolderFromBlock)
  unfolding holder_of
  get_holder_from_block block bill_keys = holder_of block.op_code block bill_keys
