-- ===== src/Service/Execute/Outcome.antt =====
-- What an action of the user leaves in the tables of bills.
use e_bill.Prelude.{
  ℕ, ◌≡◌, ◌⊎◌, inl, inr, refl, String, true, some, [], ◌∷◌, ◌++◌, arith, Result, ok, err, panic,
  map_err, Result-cases, Bool-cases, Option-cases, last,
}
use e_bill.Contact.{ContactType, IdentityPublicData}
use e_bill.Error.{BlockchainError}
use e_bill.Util.Crypto.{BcrKeys, get_private_key_string, get_public_key}
use e_bill.Ledger.Data.{IdentityBlock, CompanyKeys}
use e_bill.Blockchain.{get_latest_block, try_add_block, is_chain_valid, validate_with_previous}
use e_bill.Bill.Data.{BillBlock, BillAction}
use e_bill.Bill.Block.{bill_block}
use e_bill.Bill.Chain.{BillBlockchain}
use e_bill.Bill.Action.{validate}
use e_bill.Handler.Store
use e_bill.Handler.Store.{Store, StoreError}
use e_bill.Service.State.{
  ServiceEnv, ServiceState, ServiceError, persistence, Run, bind, ◌>>=◌, pure,
}
use e_bill.Service.Fetch.{Fetched, fetch_data, get_bill_signing_keys}
use e_bill.Service.Block.{new_block}
use e_bill.Service.Execute.{
  execute_data, execute_bill_action, create_blocks_for_bill_action, validate_and_add_block,
  add_identity_and_company_chain_blocks_for_signed_bill_action, add_blocks_by_type,
  add_block_to_identity_chain_for_signed_bill_action,
  add_block_to_identity_chain_for_signed_company_bill_action,
  add_block_to_company_chain_for_signed_bill_action, add_identity_block, latest_identity_block,
}

abbrev pub Fails : {A : Type 0} → Result ServiceError A → Type 0
Fails (ok a) = ⊥
Fails (err e) = Unit
Fails panic = Unit

-- A step that leaves the tables of bills alone.
abbrev Keeps : {A : Type 0} → Run A → Type 0
Keeps m = (s : ServiceState) → (m s).1.bills ≡ s.bills

module _ (V : ServiceEnv) where
  add_identity_block-Keeps :
      (r : Result BlockchainError IdentityBlock) → Keeps (add_identity_block V r)
  unfolding add_identity_block
  add_identity_block-Keeps r s = ground arith

  identity_chain-Keeps :
      (bill_id : String) (block : BillBlock) (keys : BcrKeys) (timestamp : ℕ)
      → Keeps (add_block_to_identity_chain_for_signed_bill_action V bill_id block keys timestamp)
  unfolding add_block_to_identity_chain_for_signed_bill_action latest_identity_block
      add_identity_block
  identity_chain-Keeps bill_id block keys timestamp s = ground arith

  company_signed-Keeps :
      (company_id bill_id : String) (block : BillBlock) (keys : BcrKeys) (timestamp : ℕ)
      → Keeps (
          add_block_to_identity_chain_for_signed_company_bill_action V company_id bill_id block keys
            timestamp)
  unfolding add_block_to_identity_chain_for_signed_company_bill_action latest_identity_block
      add_identity_block
  company_signed-Keeps company_id bill_id block keys timestamp s = ground arith

  company_chain-Keeps :
      (company_id bill_id : String) (block : BillBlock) (keys : BcrKeys) (company : CompanyKeys)
      (timestamp : ℕ)
      → Keeps (
          add_block_to_company_chain_for_signed_bill_action V company_id bill_id block keys company
            timestamp)
  unfolding add_block_to_company_chain_for_signed_bill_action
  company_chain-Keeps company_id bill_id block keys company timestamp s = ground arith

  add_blocks_by_type-Keeps :
      (t : ContactType) (company_id bill_id : String) (block : BillBlock)
      (identity_keys signer_keys : BcrKeys) (timestamp : ℕ)
      → Keeps (add_blocks_by_type V t company_id bill_id block identity_keys signer_keys timestamp)
  unfolding add_blocks_by_type
  add_blocks_by_type-Keeps ContactType.person company_id bill_id block identity_keys signer_keys
        timestamp s =
      identity_chain-Keeps bill_id block identity_keys timestamp s
  add_blocks_by_type-Keeps ContactType.company company_id bill_id block identity_keys signer_keys
        timestamp s =
      ground (
        arith,
        company_chain-Keeps company_id bill_id block identity_keys
            (record {
              private_key = get_private_key_string V.bill.platform signer_keys;
              public_key = get_public_key V.bill.platform signer_keys;
            })
            timestamp s,
        company_signed-Keeps company_id bill_id block identity_keys timestamp,
      )

  module _ (bill_id : String) (action : BillAction) (signer : IdentityPublicData)
      (signer_keys : BcrKeys) (timestamp : ℕ) (st : ServiceState) where
    -- The action passed its checks and its block was created and stored.
    pub record Executed (fetched : Fetched) (block : BillBlock) : Type 0 where
      pub fetch : fetch_data V.bill bill_id st ≡ ok fetched
      pub allowed : validate V.bill (execute_data fetched signer action timestamp) ≡ ok tt
      pub previous : BillBlock
      pub previous_is_last : last fetched.blockchain ≡ some previous
      pub created :
          new_block V fetched.bill previous fetched.bill_keys action signer
            (get_bill_signing_keys signer signer_keys fetched.identity)
            timestamp
          ≡ ok block
      pub fits : validate_with_previous V.bill.platform (bill_block V.bill) block previous ≡ true
      pub valid :
          is_chain_valid V.bill.platform (bill_block V.bill) (fetched.blockchain ++ block ∷ [])
          ≡ true
      pub bills : Store
      pub stored : Store.add_block V.bill fetched.bill.id block st.bills ≡ (ok tt, bills)

    abbrev pub run : Result ServiceError BillBlockchain × ServiceState
    run = execute_bill_action V bill_id action signer signer_keys timestamp st

    -- The end of an action: no block and an error, or a block, and then an error or the new chain.
    abbrev pub Ends : Result ServiceError BillBlockchain × ServiceState → Type 0
    Ends (r, st') =
        (st'.bills ≡ st.bills) × Fails r
        ⊎ (fetched : Fetched) × (block : BillBlock) × (e : Executed fetched block) × (st'.bills
            ≡ e.bills)
          × (Fails r ⊎ (r ≡ ok (fetched.blockchain ++ block ∷ [])))

    module _ (fetched : Fetched) (previous block : BillBlock)
        (fetch : fetch_data V.bill bill_id st ≡ ok fetched)
        (allowed : validate V.bill (execute_data fetched signer action timestamp) ≡ ok tt)
        (is_last : last fetched.blockchain ≡ some previous)
        (created : new_block V fetched.bill previous fetched.bill_keys action signer
            (get_bill_signing_keys signer signer_keys fetched.identity)
            timestamp
          ≡ ok block) where
      add_block-Unchanged :
          (id : String) {r : Result StoreError (Unit {0})} {bills : Store}
          → Store.add_block V.bill id block st.bills ≡ (r, bills)
          → (r ≡ ok tt) ⊎ (bills ≡ st.bills)
      unfolding Store.add_block Store.add_block_after Store.create_next Store.create_first
      add_block-Unchanged id h = ground arith

      -- The last part of `create_blocks_for_bill_action`.
      abbrev noted : BillBlockchain → Run BillBlockchain
      noted chain' =
          add_identity_and_company_chain_blocks_for_signed_bill_action V signer fetched.bill.id
            block fetched.identity.key_pair signer_keys timestamp
          >>= λ done. pure chain'

      noted-Keeps :
          (s : ServiceState)
          → ((noted (fetched.blockchain ++ block ∷ []) s).1.bills ≡ s.bills)
            × (Fails (noted (fetched.blockchain ++ block ∷ []) s).0
                ⊎ ((noted (fetched.blockchain ++ block ∷ []) s).0
                    ≡ ok (fetched.blockchain ++ block ∷ [])))
      unfolding add_identity_and_company_chain_blocks_for_signed_bill_action
      noted-Keeps s = ground (
        arith,
        add_blocks_by_type-Keeps signer.t signer.node_id fetched.bill.id block
            fetched.identity.key_pair signer_keys timestamp s,
      )

      added-Ends :
          validate_with_previous V.bill.platform (bill_block V.bill) block previous ≡ true
          → is_chain_valid V.bill.platform (bill_block V.bill) (fetched.blockchain ++ block ∷ [])
            ≡ true
          → (r : Result StoreError (Unit {0})) (bills : Store)
          → Store.add_block V.bill fetched.bill.id block st.bills ≡ (r, bills)
          → Ends (
              ((λ s.
                    bind
                      (map_err (λ e. persistence) r)
                      (λ done. pure (fetched.blockchain ++ block ∷ []))
                      (record st { bills = bills }))
                  >>= noted)
                st)
      added-Ends fits valid (ok tt) bills e =
          let (kept, ended) = noted-Keeps (record st { bills = bills }) in
          inr (
            fetched,
            block,
            record {
              fetch = fetch;
              allowed = allowed;
              previous = previous;
              previous_is_last = is_last;
              created = created;
              fits = fits;
              valid = valid;
              bills = bills;
              stored = e;
            },
            kept,
            ended,
          )
      added-Ends fits valid (err x) bills e =
          ground (arith, add_block-Unchanged fetched.bill.id {r = err x} {bills = bills} e)
      added-Ends fits valid panic bills e =
          ground (arith, add_block-Unchanged fetched.bill.id {r = panic} {bills = bills} e)

      created-Ends : Ends (
          (validate_and_add_block V fetched.bill.id fetched.blockchain block >>= λ chain'.
          add_identity_and_company_chain_blocks_for_signed_bill_action V signer fetched.bill.id
            block fetched.identity.key_pair signer_keys timestamp
          >>= λ done. pure chain')
            st)
      unfolding validate_and_add_block try_add_block get_latest_block
      created-Ends =
          let (r, bills) = Store.add_block V.bill fetched.bill.id block st.bills in
          elim (Bool-cases
            (validate_with_previous V.bill.platform (bill_block V.bill) block previous)) [
              | inl fits ↦
                  elim (Bool-cases (
                    is_chain_valid V.bill.platform (bill_block V.bill)
                      (fetched.blockchain ++ block ∷ []))) [
                        | inl valid ↦ rw (is_last, fits, valid) (added-Ends fits valid r bills refl)
                        | inr invalid ↦ ground arith
                      ]
              | inr unfit ↦ ground arith
            ]

    pub execute_bill_action-Ends : Ends run
    unfolding execute_bill_action create_blocks_for_bill_action get_latest_block
    execute_bill_action-Ends = elim (Result-cases (fetch_data V.bill bill_id st)) [
      | inl (fetched, e) ↦
          elim (Result-cases (validate V.bill (execute_data fetched signer action timestamp))) [
            | inl (tt, f) ↦ elim (Option-cases (last fetched.blockchain)) [
              | inl g ↦ ground arith
              | inr (previous, g) ↦
                  elim (Result-cases (
                    new_block V fetched.bill previous fetched.bill_keys action signer
                      (get_bill_signing_keys signer signer_keys fetched.identity) timestamp)) [
                        | inl (block, k) ↦
                            rw (e, f, g, k) (created-Ends fetched previous block e f g k)
                        | inr failed ↦ ground arith
                      ]
            ]
            | inr failed ↦ ground arith
          ]
      | inr failed ↦ ground arith
    ]

    -- Once the block is stored, the identity's and the company's chains decide how the action ends.
    pub Executed-run :
        {fetched : Fetched} {block : BillBlock} (e : Executed fetched block)
        → run
          ≡ (add_identity_and_company_chain_blocks_for_signed_bill_action V signer fetched.bill.id
                  block fetched.identity.key_pair signer_keys timestamp
                >>= λ done. pure (fetched.blockchain ++ block ∷ []))
              (record st { bills = e.bills })
    unfolding execute_bill_action create_blocks_for_bill_action get_latest_block
        validate_and_add_block try_add_block
    Executed-run e =
        rw
          (
            e.fetch, e.allowed, e.previous_is_last, e.created, e.previous_is_last, e.fits, e.valid,
            e.stored,
          )
          refl
