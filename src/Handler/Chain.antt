-- ===== src/Handler/Chain.antt =====
-- The processing of received blocks: `process_chain_data` and what it calls.
use e_bill.Prelude.{
  String, Bool, true, false, not, Option, none, some, List, [], ◌∷◌, ok, err, panic, if◌then◌else◌,
  leb, ltb, ok_or,
}
use e_bill.Blockchain.{
  is_chain_valid, try_add_block, get_latest_block, get_first_block, block_height,
}
use e_bill.Bill.Data.{
  BillBlock, BillKeys, BillOpCode, BillIssueBlockData, BillIdentityBlockData, BillAction, op_eq,
}
use e_bill.Bill.Env.{BillEnv}
use e_bill.Bill.Block.{bill_block}
use e_bill.Bill.Signer.{verify_and_get_signer}
use e_bill.Bill.Chain.{
  BillBlockchain, BillParties, new_from_blocks, get_first_version_bill, get_bill_parties,
}
use e_bill.Bill.Action.{BillValidateActionData, validate}
use e_bill.Handler.Store
use e_bill.Handler.Store.{Store}
use e_bill.Handler.Exec.{
  Error, Exec, persistence, blockchain, crypto, pure, raise, lift, lift_state, gets, ◌>>=◌, ◌>>◌,
  when,
}

abbrev pub node_id_of : Option BillIdentityBlockData → Option String
node_id_of none = none
node_id_of (some e) = some e.node_id

-- The data for the validation of a received block's action against the chain before it.
unfoldable pub action_data :
    BillBlockchain
    → BillParties
    → BillIssueBlockData
    → BillKeys
    → BillBlock
    → String
    → BillAction
    → Bool
    → BillValidateActionData
action_data chain parties bill_first_version bill_keys block signer bill_action is_paid = record {
  blockchain = chain;
  drawee_node_id = parties.drawee.node_id;
  payee_node_id = parties.payee.node_id;
  endorsee_node_id = node_id_of parties.endorsee;
  maturity_date = bill_first_version.maturity_date;
  bill_keys = bill_keys;
  timestamp = block.timestamp;
  signer_node_id = signer;
  bill_action = bill_action;
  is_paid = is_paid;
}

module _ (V : BillEnv) where
  open V use {platform}

  unfoldable pub save_block : String → BillBlock → Exec Unit
  save_block bill_id block = lift_state (Store.add_block V bill_id block) persistence

  unfoldable pub save_keys : String → BillKeys → Exec Unit
  save_keys bill_id keys = lift_state (Store.save_keys bill_id keys) persistence

  unfoldable pub invalidate_cache_for_bill : String → Exec Unit
  invalidate_cache_for_bill bill_id st = (ok tt, Store.invalidate_bill_in_cache bill_id st)

  -- The checks of a block that is new, against the chain before it.
  unfoldable pub check_block :
      BillBlockchain → BillIssueBlockData → BillKeys → BillBlock → Bool → Exec Unit
  unfolding action_data
  check_block chain bill_first_version bill_keys block is_paid =
      lift (verify_and_get_signer V block bill_keys) blockchain >>= λ (signer, bill_action).
      lift (get_bill_parties V chain bill_keys bill_first_version) blockchain >>= λ parties.
      lift (ok_or {E = Unit} bill_action tt) blockchain >>= λ action.
      lift
        (validate V
          (action_data chain parties bill_first_version bill_keys block signer action is_paid))
        blockchain

  -- Whether the block was added, and the chain with it.
  unfoldable pub validate_and_save_block :
      String
      → BillBlockchain
      → BillIssueBlockData
      → BillKeys
      → BillBlock
      → Bool
      → Exec (Bool × BillBlockchain)
  unfolding save_block
  validate_and_save_block bill_id chain bill_first_version bill_keys block is_paid =
      lift {E = Error} (get_latest_block platform (bill_block V) chain) blockchain >>= λ latest.
      if leb block.id latest.id
      then pure (false, chain)
      else if op_eq block.op_code BillOpCode.issue
      then pure (false, chain)
      else lift {E = Error} (try_add_block platform (bill_block V) chain block) blockchain
        >>= λ (chain', added).
            if not added
            then raise blockchain
            else check_block chain bill_first_version bill_keys block is_paid
              >> save_block bill_id block
              >> pure (true, chain')

  -- `for block in blocks`: whether the last block was added.
  unfoldable pub add_blocks :
      String
      → BillIssueBlockData
      → BillKeys
      → Bool
      → List BillBlock
      → BillBlockchain
      → Bool
      → Exec Bool
  add_blocks bill_id bill_first_version bill_keys is_paid [] chain block_added = pure block_added
  add_blocks bill_id bill_first_version bill_keys is_paid (block ∷ blocks) chain block_added =
      validate_and_save_block bill_id chain bill_first_version bill_keys block is_paid
      >>= λ (added, chain').
          add_blocks bill_id bill_first_version bill_keys is_paid blocks chain' added

  unfoldable pub add_bill_blocks : String → BillBlockchain → List BillBlock → Exec Unit
  unfolding invalidate_cache_for_bill
  add_bill_blocks bill_id existing blocks = do
    bill_keys ← λ st. lift (Store.get_keys bill_id st) persistence st
    is_paid ← gets (λ st. st.is_paid bill_id)
    bill_first_version ← lift (get_first_version_bill V existing bill_keys) blockchain
    block_added ← add_blocks bill_id bill_first_version bill_keys is_paid blocks existing false
    when block_added (invalidate_cache_for_bill bill_id)

  -- `for block in chain.blocks()` of get_valid_chain
  unfoldable pub verify_all : List BillBlock → BillKeys → Exec Unit
  verify_all [] keys = pure tt
  verify_all (block ∷ blocks) keys = do
    signer ← lift (verify_and_get_signer V block keys) blockchain
    verify_all blocks keys

  unfoldable pub get_valid_chain :
      List BillBlock → BillKeys → Exec (String × BillIssueBlockData × BillBlockchain)
  unfolding verify_all
  get_valid_chain blocks keys = do
    chain ← lift (new_from_blocks V blocks) blockchain
    if not (is_chain_valid platform (bill_block V) chain) then raise blockchain else do
      first ← lift {E = Error} (get_first_block platform (bill_block V) chain) blockchain
      if not (op_eq first.op_code BillOpCode.issue) then raise blockchain else do
        bill ← lift (get_first_version_bill V chain keys) crypto
        verify_all chain keys
        pure (bill.id, bill, chain)

  -- The blocks behind the issue block, each as `validate_and_save_block` takes it.
  unfoldable pub add_rest :
      String → BillIssueBlockData → BillKeys → List BillBlock → BillBlockchain → Exec Unit
  add_rest bill_id bill_first_version keys [] chain = pure tt
  add_rest bill_id bill_first_version keys (block ∷ blocks) chain =
      validate_and_save_block bill_id chain bill_first_version keys block false
      >>= λ (added, chain'). add_rest bill_id bill_first_version keys blocks chain'

  abbrev tail : {A : Type 0} → List A → List A
  tail [] = []
  tail (x ∷ xs) = xs

  unfoldable pub add_new_chain : List BillBlock → BillKeys → Exec Unit
  unfolding save_block save_keys
  add_new_chain blocks keys =
      get_valid_chain blocks keys >>= λ (bill_id, bill_first_version, chain).
      lift {E = Error} (get_first_block platform (bill_block V) chain) blockchain >>= λ issue_block.
      lift (new_from_blocks V (issue_block ∷ [])) blockchain >>= λ chain_starting_at_issue.
      save_block bill_id issue_block
      >> (if ltb 1 (block_height platform (bill_block V) chain)
          then add_rest bill_id bill_first_version keys (tail chain) chain_starting_at_issue
          else pure tt)
      >> save_keys bill_id keys

  unfoldable pub add_or_refuse : List BillBlock → Option BillKeys → Exec Unit
  add_or_refuse blocks none = raise blockchain
  add_or_refuse blocks (some keys) = add_new_chain blocks keys

  unfoldable pub process_chain_data : String → List BillBlock → Option BillKeys → Exec Unit
  unfolding add_or_refuse
  process_chain_data bill_id blocks keys st = elim (Store.get_chain V bill_id st) [
    | ok existing_chain ↦ add_bill_blocks bill_id existing_chain blocks st
    | err e ↦ add_or_refuse blocks keys st
    | panic ↦ (panic, st)
  ]
