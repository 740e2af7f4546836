-- ===== src/Bill/Chain.antt =====
-- core/src/blockchain/bill/chain.rs: `BillBlockchain` and what is read from it, but for the past
-- payments (Payments) and the past endorsees (Endorsees). A chain is its list of blocks.
pub mod Lookup
pub mod Parties
use e_bill.Prelude.{
  ℕ, ◌<◌, String, Bool, true, false, not, ◌||◌, ◌&&◌, Option, none, some, List, [], ◌∷◌, ◌++◌, ◌≡◌,
  Result, ok, err, panic, ◌>>=◌, if◌then◌else◌, any, filter, length, ◌==◌, eqb, ltb, first, suc,
  ◌+◌,
}
use e_bill.Error.{BlockchainError, blockchain_invalid}
use e_bill.Util.Date.{
  check_if_deadline_has_passed, payment_deadline_seconds, recourse_deadline_seconds,
}
use e_bill.Blockchain
use e_bill.Blockchain.{
  verify, validate_hash, is_chain_valid, get_latest_block, get_first_block,
  get_last_version_block_with_op_code,
}
use e_bill.Bill.Data
use e_bill.Bill.Data.{
  BillBlock, BillOpCode, BillKeys, DataType, BillIdentityBlockData, BillIssueBlockData, op_eq,
  OfferToSellWaitingForPayment, RecourseWaitingForPayment, PaymentInfo, RecoursePaymentInfo,
  BillOfferToSellBlockData, BillRequestRecourseBlockData,
}
use e_bill.Bill.Env.{BillEnv}
use e_bill.Bill.Block.{
  bill_block, get_decrypted_block_bytes, get_nodes_from_block, get_beneficiary_from_block,
  get_beneficiary_from_request_funds_block,
}

abbrev pub BillBlockchain : Type 0
BillBlockchain = List BillBlock

pub record BillParties : Type 0 where
  pub drawee : BillIdentityBlockData
  pub drawer : BillIdentityBlockData
  pub payee : BillIdentityBlockData
  pub endorsee : Option BillIdentityBlockData

-- `matches!` on op codes
unfoldable pub is_endorse_sell_or_mint : BillOpCode → Bool
is_endorse_sell_or_mint BillOpCode.mint = true
is_endorse_sell_or_mint BillOpCode.sell = true
is_endorse_sell_or_mint BillOpCode.endorse = true
is_endorse_sell_or_mint _ = false

unfoldable pub is_endorsement : BillOpCode → Bool
is_endorsement BillOpCode.mint = true
is_endorsement BillOpCode.sell = true
is_endorsement BillOpCode.endorse = true
is_endorsement BillOpCode.recourse = true
is_endorsement _ = false

unfoldable pub is_endorse_or_sell : BillOpCode → Bool
is_endorse_or_sell BillOpCode.sell = true
is_endorse_or_sell BillOpCode.endorse = true
is_endorse_or_sell _ = false

abbrev pub has_been_endorsed_sold_or_minted : BillBlockchain → Bool
unfolding is_endorse_sell_or_mint
has_been_endorsed_sold_or_minted blocks = any (λ b. is_endorse_sell_or_mint b.op_code) blocks

abbrev pub get_endorsements_count : BillBlockchain → ℕ
unfolding is_endorsement
get_endorsements_count blocks = length (filter (λ b. is_endorsement b.op_code) blocks)

abbrev pub has_been_endorsed_or_sold : BillBlockchain → Bool
unfolding is_endorse_or_sell
has_been_endorsed_or_sold blocks = any (λ b. is_endorse_or_sell b.op_code) blocks

abbrev pub payment_info : BillOfferToSellBlockData → PaymentInfo
payment_info d = record {
  buyer = d.buyer;
  seller = d.seller;
  sum = d.sum;
  currency = d.currency;
  payment_address = d.payment_address;
}

abbrev pub recourse_payment_info : BillRequestRecourseBlockData → RecoursePaymentInfo
recourse_payment_info d = record {
  recourser = d.recourser;
  recoursee = d.recoursee;
  sum = d.sum;
  currency = d.currency;
  reason = d.recourse_reason;
}

-- `max_by_key(|(id, _)| *id)`: of equal keys the last.
unfoldable pub max_by_key : {A : Type 0} → Option (ℕ × A) → List (ℕ × A) → Option (ℕ × A)
max_by_key best [] = best
max_by_key none (x ∷ xs) = max_by_key (some x) xs
max_by_key (some b) (x ∷ xs) = max_by_key (some (if ltb x.0 b.0 then b else x)) xs

unfoldable pub flatten : {A : Type 0} → List (Option A) → List A
flatten [] = []
flatten (none ∷ xs) = flatten xs
flatten (some x ∷ xs) = x ∷ flatten xs

module _ (V : BillEnv) where
  open V use {platform}

  unfoldable pub new_from_blocks : BillBlockchain → Result BlockchainError BillBlockchain
  new_from_blocks [] = err blockchain_invalid
  new_from_blocks (first ∷ rest) =
      if not (verify platform (bill_block V) first)
        || not (validate_hash platform (bill_block V) first)
      then err blockchain_invalid
      else if not (is_chain_valid platform (bill_block V) (first ∷ rest))
      then err blockchain_invalid
      else ok (first ∷ rest)

  unfoldable pub last_with_op : BillBlockchain → BillOpCode → Option BillBlock
  last_with_op = get_last_version_block_with_op_code platform (bill_block V)

  unfoldable pub exists_with_op : BillBlockchain → BillOpCode → Bool
  exists_with_op = Blockchain.block_with_operation_code_exists platform (bill_block V)

  -- `filter_map(… .ok()).flatten().any(…)`
  abbrev names : Result BlockchainError (Option String) → String → Bool
  names (ok (some s)) node_id = s == node_id
  names (ok none) node_id = false
  names (err e) node_id = false
  names panic node_id = false

  abbrev pub is_beneficiary_from_a_block : BillBlockchain → BillKeys → String → Bool
  is_beneficiary_from_a_block blocks bill_keys node_id =
      any (λ b. names (get_beneficiary_from_block V b bill_keys) node_id) blocks

  abbrev pub is_beneficiary_from_a_request_funds_block : BillBlockchain → BillKeys → String → Bool
  is_beneficiary_from_a_request_funds_block blocks bill_keys node_id =
      any (λ b. names (get_beneficiary_from_request_funds_block V b bill_keys) node_id) blocks

  -- The inner part of the two functions below, for a last request block with the latest block's id.
  unfoldable pub recourse_of :
      BillBlock → BillKeys → ℕ → Result BlockchainError RecourseWaitingForPayment
  recourse_of block bill_keys now =
      if check_if_deadline_has_passed block.timestamp now recourse_deadline_seconds
      then ok RecourseWaitingForPayment.not_waiting
      else (do
        d ← get_decrypted_block_bytes V DataType.request_recourse block bill_keys
        ok (RecourseWaitingForPayment.waiting (recourse_payment_info d)))

  unfoldable pub is_last_request_to_recourse_block_waiting_for_payment :
      BillBlockchain → BillKeys → ℕ → Result BlockchainError RecourseWaitingForPayment
  is_last_request_to_recourse_block_waiting_for_payment blocks bill_keys current_timestamp = do
    last_block ← get_latest_block platform (bill_block V) blocks
    elim (last_with_op blocks BillOpCode.request_recourse) [
      | some b ↦
          if eqb last_block.id b.id
          then recourse_of b bill_keys current_timestamp
          else ok RecourseWaitingForPayment.not_waiting
      | none ↦ ok RecourseWaitingForPayment.not_waiting
    ]

  unfoldable pub offer_of :
      BillBlock → BillKeys → ℕ → Result BlockchainError OfferToSellWaitingForPayment
  offer_of block bill_keys now =
      if check_if_deadline_has_passed block.timestamp now payment_deadline_seconds
      then ok OfferToSellWaitingForPayment.not_waiting
      else (do
        d ← get_decrypted_block_bytes V DataType.offer_to_sell block bill_keys
        ok (OfferToSellWaitingForPayment.waiting (payment_info d)))

  unfoldable pub is_last_offer_to_sell_block_waiting_for_payment :
      BillBlockchain → BillKeys → ℕ → Result BlockchainError OfferToSellWaitingForPayment
  is_last_offer_to_sell_block_waiting_for_payment blocks bill_keys current_timestamp = do
    last_block ← get_latest_block platform (bill_block V) blocks
    elim (last_with_op blocks BillOpCode.offer_to_sell) [
      | some b ↦
          if eqb last_block.id b.id
          then offer_of b bill_keys current_timestamp
          else ok OfferToSellWaitingForPayment.not_waiting
      | none ↦ ok OfferToSellWaitingForPayment.not_waiting
    ]

  unfoldable pub get_first_version_bill :
      BillBlockchain → BillKeys → Result BlockchainError BillIssueBlockData
  get_first_version_bill blocks bill_keys = do
    first_block ← get_first_block platform (bill_block V) blocks
    get_decrypted_block_bytes V DataType.issue first_block bill_keys

  -- A `HashMap` from nodes to heights as an association list, the earliest node first.
  abbrev contains_key : String → List (String × ℕ) → Bool
  contains_key node nodes = any (λ e. e.0 == node) nodes

  unfoldable pub add_nodes : List String → ℕ → List (String × ℕ) → List (String × ℕ)
  add_nodes [] height nodes = nodes
  add_nodes (node ∷ rest) height nodes = add_nodes rest height (
      if not (contains_key node nodes) && not (node == "")
      then nodes ++ (node, height) ∷ []
      else nodes)

  unfoldable pub heights_from :
      ℕ → BillBlockchain → BillKeys → List (String × ℕ) → Result BlockchainError (List (String × ℕ))
  heights_from height [] bill_keys nodes = ok nodes
  heights_from height (block ∷ blocks) bill_keys nodes = do
    nodes_in_block ← get_nodes_from_block V block bill_keys
    heights_from (height + 1) blocks bill_keys (add_nodes nodes_in_block (height + 1) nodes)

  unfoldable pub get_all_nodes_with_added_block_height :
      BillBlockchain → BillKeys → Result BlockchainError (List (String × ℕ))
  unfolding heights_from add_nodes
  get_all_nodes_with_added_block_height blocks bill_keys = heights_from 0 blocks bill_keys []

  abbrev pub get_all_nodes_from_bill :
      BillBlockchain → BillKeys → Result BlockchainError (List String)
  get_all_nodes_from_bill blocks bill_keys = do
    node_map ← get_all_nodes_with_added_block_height blocks bill_keys
    ok (e_bill.Prelude.map (λ e. e.0) node_map)

  -- The id of a chain's last block with the op code, and the party that `get` takes from its data.
  unfoldable pub last_party :
      (op : BillOpCode) (t : DataType)
      → (Data.Data t → BillIdentityBlockData)
      → BillBlockchain
      → BillKeys
      → Result BlockchainError (Option (ℕ × BillIdentityBlockData))
  last_party op t get blocks bill_keys = elim (last_with_op blocks op) [
    | some b ↦ get_decrypted_block_bytes V t b bill_keys >>= λ d. ok (some (b.id, get d))
    | none ↦ ok none
  ]

  unfoldable pub get_bill_parties :
      BillBlockchain → BillKeys → BillIssueBlockData → Result BlockchainError BillParties
  unfolding max_by_key flatten
  get_bill_parties blocks bill_keys bill_first_version = do
    endorse ← last_party BillOpCode.endorse DataType.endorse (λ d. d.endorsee) blocks bill_keys
    mint ← last_party BillOpCode.mint DataType.mint (λ d. d.endorsee) blocks bill_keys
    sell ← last_party BillOpCode.sell DataType.sell (λ d. d.buyer) blocks bill_keys
    recourse ← last_party BillOpCode.recourse DataType.recourse (λ d. d.recoursee) blocks bill_keys
    let last_endorsee = max_by_key none (flatten (endorse ∷ mint ∷ sell ∷ recourse ∷ []))
    ok (record {
      drawee = bill_first_version.drawee;
      drawer = bill_first_version.drawer;
      payee = bill_first_version.payee;
      endorsee = elim last_endorsee [ none ↦ none | some b ↦ some b.1 ];
    })
