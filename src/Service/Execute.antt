-- ===== src/Service/Execute.antt =====
-- blocks.rs and `execute_bill_action` of service.rs: an action of the user is checked, its block is
-- created and stored, and the chains of the signer's identity and company take note of it.
pub mod Outcome
pub mod Reading
pub mod Admitted
pub mod Peers
use e_bill.Prelude.{
  ℕ, String, Bool, true, false, ◌&&◌, Option, none, some, List, Result, ok, err, panic, map_err,
  last, if◌then◌else◌,
}
use e_bill.Error.{BlockchainError, blockchain_invalid}
use e_bill.Contact.{ContactType, IdentityPublicData}
use e_bill.Util.Crypto.{BcrKeys, get_private_key_string, get_public_key}
use e_bill.Blockchain.{get_latest_block, try_add_block, is_chain_valid}
use e_bill.Bill.Data.{BillBlock, BillKeys, BillAction}
use e_bill.Bill.Block.{bill_block}
use e_bill.Bill.Chain.{BillBlockchain}
use e_bill.Bill.Action.{BillValidateActionData, validate}
use e_bill.Ledger.Data.{IdentityBlock, CompanyBlock, CompanyKeys, IdentityWithAll}
use e_bill.Ledger.Identity
use e_bill.Ledger.Company
use e_bill.Ledger.Table
use e_bill.Handler.Store
use e_bill.Service.State.{
  ServiceEnv, ServiceState, ServiceError, blockchain, persistence, validation, ledger_env, Run,
  bind, ◌>>=◌, pure,
}
use e_bill.Service.Fetch.{
  BitcreditBill, BillSigningKeys, Fetched, fetch_data, get_bill_signing_keys,
}
use e_bill.Service.Block.{new_block}

abbrev pub endorsee_id : Option IdentityPublicData → Option String
endorsee_id none = none
endorsee_id (some e) = some e.node_id

-- The data for the validation of an action of the user.
unfoldable pub execute_data : Fetched → IdentityPublicData → BillAction → ℕ → BillValidateActionData
execute_data fetched signer_public_data bill_action timestamp = record {
  blockchain = fetched.blockchain;
  drawee_node_id = fetched.bill.drawee.node_id;
  payee_node_id = fetched.bill.payee.node_id;
  endorsee_node_id = endorsee_id fetched.bill.endorsee;
  maturity_date = fetched.bill.maturity_date;
  bill_keys = fetched.bill_keys;
  timestamp = timestamp;
  signer_node_id = signer_public_data.node_id;
  bill_action = bill_action;
  is_paid = fetched.is_paid;
}

module _ (V : ServiceEnv) where
  open V use {bill}

  -- The block goes to the table of the bill's chain, and the chain that was read grows by it.
  unfoldable pub validate_and_add_block : String → BillBlockchain → BillBlock → Run BillBlockchain
  validate_and_add_block bill_id chain new st =
      bind (try_add_block bill.platform (bill_block bill) chain new)
        (λ (chain', added) st₁.
          if added && is_chain_valid bill.platform (bill_block bill) chain'
          then (let (r, bills) = Store.add_block bill bill_id new st₁.bills in
              bind (map_err (λ e. persistence) r) (λ done. pure chain')
                (record st₁ { bills = bills }))
          else (err (blockchain blockchain_invalid), st₁))
        st

  unfoldable pub add_identity_block : Result BlockchainError IdentityBlock → Run Unit
  add_identity_block created st =
      bind (map_err blockchain created)
        (λ new st₁.
          bind
            (map_err (λ e. persistence)
              (Table.add_identity_block (ledger_env V) new st₁.identity_chain))
            (λ rows st₂. (ok tt, record st₂ { identity_chain = rows })) st₁)
        st

  unfoldable pub latest_identity_block : Run IdentityBlock
  latest_identity_block st = (
    map_err (λ e. persistence)
        (Table.latest bill.platform (Identity.identity_block (ledger_env V)) st.identity_chain),
    st,
  )

  unfoldable pub add_block_to_identity_chain_for_signed_bill_action :
      String → BillBlock → BcrKeys → ℕ → Run Unit
  unfolding latest_identity_block add_identity_block
  add_block_to_identity_chain_for_signed_bill_action bill_id block keys timestamp =
      latest_identity_block >>= λ previous_block. add_identity_block (
        Identity.create_block_for_sign_person_bill (ledger_env V) previous_block
          (record {
            bill_id = bill_id;
            block_id = block.id;
            block_hash = block.hash;
            operation = block.op_code;
          })
          keys timestamp)

  unfoldable pub add_block_to_identity_chain_for_signed_company_bill_action :
      String → String → BillBlock → BcrKeys → ℕ → Run Unit
  unfolding latest_identity_block add_identity_block
  add_block_to_identity_chain_for_signed_company_bill_action company_id bill_id block keys
        timestamp =
      latest_identity_block >>= λ previous_block. add_identity_block (
        Identity.create_block_for_sign_company_bill (ledger_env V) previous_block
          (record {
            bill_id = bill_id;
            block_id = block.id;
            block_hash = block.hash;
            company_id = company_id;
            operation = block.op_code;
          })
          keys timestamp)

  unfoldable pub add_block_to_company_chain_for_signed_bill_action :
      String → String → BillBlock → BcrKeys → CompanyKeys → ℕ → Run Unit
  add_block_to_company_chain_for_signed_bill_action company_id bill_id block signatory_keys
        company_keys timestamp st =
      bind
        (map_err (λ e. persistence)
          (Table.latest bill.platform (Company.company_block (ledger_env V))
            (st.company_chains company_id)))
        (λ previous_block.
          bind
            (map_err blockchain (
              Company.create_block_for_sign_company_bill (ledger_env V) company_id previous_block
                (record {
                  bill_id = bill_id;
                  block_id = block.id;
                  block_hash = block.hash;
                  operation = block.op_code;
                })
                signatory_keys company_keys timestamp))
            (λ new st₁.
              bind
                (map_err (λ e. persistence)
                  (Table.add_company_block (ledger_env V) company_id new st₁.company_chains))
                (λ rows st₂. (ok tt, record st₂ { company_chains = rows })) st₁))
        st

  -- `match signer_public_data.t`
  unfoldable pub add_blocks_by_type :
      ContactType → String → String → BillBlock → BcrKeys → BcrKeys → ℕ → Run Unit
  unfolding add_block_to_identity_chain_for_signed_bill_action
      add_block_to_identity_chain_for_signed_company_bill_action
      add_block_to_company_chain_for_signed_bill_action
  add_blocks_by_type ContactType.person company_id bill_id block identity_keys signer_keys
        timestamp =
      add_block_to_identity_chain_for_signed_bill_action bill_id block identity_keys timestamp
  add_blocks_by_type ContactType.company company_id bill_id block identity_keys signer_keys
        timestamp =
      add_block_to_company_chain_for_signed_bill_action company_id bill_id block identity_keys
        (record {
          private_key = get_private_key_string bill.platform signer_keys;
          public_key = get_public_key bill.platform signer_keys;
        })
        timestamp
      >>= λ done.
          add_block_to_identity_chain_for_signed_company_bill_action company_id bill_id block
            identity_keys timestamp

  unfoldable pub add_identity_and_company_chain_blocks_for_signed_bill_action :
      IdentityPublicData → String → BillBlock → BcrKeys → BcrKeys → ℕ → Run Unit
  unfolding add_blocks_by_type
  add_identity_and_company_chain_blocks_for_signed_bill_action signer_public_data bill_id block
        identity_keys signer_keys timestamp =
      add_blocks_by_type signer_public_data.t signer_public_data.node_id bill_id block identity_keys
        signer_keys timestamp

  unfoldable pub create_blocks_for_bill_action :
      BitcreditBill
      → BillBlockchain
      → BillKeys
      → BillAction
      → IdentityPublicData
      → BcrKeys
      → IdentityWithAll
      → ℕ
      → Run BillBlockchain
  unfolding validate_and_add_block add_identity_and_company_chain_blocks_for_signed_bill_action
      get_bill_signing_keys
  create_blocks_for_bill_action current chain bill_keys bill_action signer_public_data signer_keys
        identity timestamp st =
      let signing_keys = get_bill_signing_keys signer_public_data signer_keys identity in
      bind (get_latest_block bill.platform (bill_block bill) chain)
        (λ previous_block.
          bind
            (new_block V current previous_block bill_keys bill_action signer_public_data
              signing_keys timestamp)
            (λ block. validate_and_add_block current.id chain block >>= λ chain'.
              add_identity_and_company_chain_blocks_for_signed_bill_action signer_public_data
                current.id block identity.key_pair signer_keys timestamp
              >>= λ done. pure chain'))
        st

  -- `execute_bill_action` up to the blocks: it answers the bill's chain with the new block.
  unfoldable pub execute_bill_action :
      String → BillAction → IdentityPublicData → BcrKeys → ℕ → Run BillBlockchain
  unfolding execute_data create_blocks_for_bill_action
  execute_bill_action bill_id bill_action signer_public_data signer_keys timestamp st =
      bind (fetch_data bill bill_id st)
        (λ fetched.
          bind
            (map_err validation
              (validate bill (execute_data fetched signer_public_data bill_action timestamp)))
            (λ valid.
              create_blocks_for_bill_action fetched.bill fetched.blockchain fetched.bill_keys
                bill_action signer_public_data signer_keys fetched.identity timestamp))
        st
