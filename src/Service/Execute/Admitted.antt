-- ===== src/Service/Execute/Admitted.antt =====
-- An action of the user does to the bill's chain what a received event may do to it.
use e_bill.Prelude.{
  ℕ, ◌≡◌, ◌∙◌, sym, ap, subst, String, some, [], ◌∷◌, ◌++◌, arith, ok, Bool, ◌⊎◌, Result, inl, inr,
}
use e_bill.Contact.{IdentityPublicData}
use e_bill.Util.Crypto.{BcrKeys}
use e_bill.Util.Crypto.Laws.{Laws}
use e_bill.Bill.Data.{BillBlock, BillAction, BillIssueBlockData, BillKeys}
use e_bill.Bill.Env.{BillEnv}
use e_bill.Bill.Create.RoundTrip.{bill_key_strings}
use e_bill.Bill.Chain.{BillBlockchain, get_first_version_bill}
use e_bill.Handler.Store
use e_bill.Handler.Store.{Store, update}
use e_bill.Handler.Events.{new_from_blocks-IsReadable}
use e_bill.Handler.Safety.{Admissible, with_block, List-cases}
use e_bill.Service.State.{ServiceEnv, ServiceState, ServiceError, ◌>>=◌, pure}
use e_bill.Service.Fetch.{Fetched, fetch_data}
use e_bill.Service.Fetch.Known.{Known, fetch_data-Known, Names, bill_of-Names}
use e_bill.Service.Execute.{
  execute_bill_action, add_identity_and_company_chain_blocks_for_signed_bill_action,
}
use e_bill.Service.Execute.Outcome.{Executed, Executed-run, Fails, execute_bill_action-Ends, run}
use e_bill.Service.Execute.Reading.{
  Identified, ReadsData, Read, new_block-Created, Created-Read, Read-Admissible,
}

-- A block that the table takes for its own bill stands at the end of the bill's rows.
pub add_block-with_block :
    (V : BillEnv) (first : BillIssueBlockData) (keys : BillKeys) (paid : Bool) (bill_id : String)
    (block : BillBlock) (st : Store) {bills : Store}
    → block.bill_id ≡ bill_id
    → Store.add_block V bill_id block st ≡ (ok tt, bills)
    → bills ≡ with_block V first keys paid bill_id block st
unfolding Store.add_block Store.add_block_after Store.create_next Store.create_first
add_block-with_block V first keys paid bill_id block st {bills} own =
    subst
      (λ j.
        Store.add_block V j block st ≡ (ok tt, bills)
        → bills ≡ with_block V first keys paid j block st)
      own
      (λ h. elim (List-cases (st.rows block.bill_id)) [
        | inl e ↦ ground arith
        | inr (b, bs, e) ↦ ground arith
      ])

module _ (V : ServiceEnv) (L : Laws V.bill.platform) (bill_id : String) (action : BillAction)
    (signer : IdentityPublicData) (signer_keys : BcrKeys) (timestamp : ℕ) (st : ServiceState)
    (bill_keys : BcrKeys) (fetched : Fetched) (first : BillIssueBlockData)
    (fetch : fetch_data V.bill bill_id st ≡ ok fetched)
    (issued : get_first_version_bill V.bill fetched.blockchain fetched.bill_keys ≡ ok first)
    (own : first.id ≡ bill_id)
    (has_keys : st.bills.keys bill_id ≡ some (bill_key_strings V.bill L bill_keys))
    (identified : Identified V.bill signer signer_keys fetched.identity) where
  abbrev known : Known V.bill bill_id st fetched
  known = fetch_data-Known V.bill bill_id st fetched fetch

  same_first : Known.first known ≡ first
  same_first = ground (arith, Known.first_known known)

  pub own_bill : fetched.bill.id ≡ bill_id
  own_bill =
      let names : Names fetched.bill (Known.first known) (Known.parties known) =
        subst (λ b. Names b (Known.first known) (Known.parties known)) (Known.same_bill known)
          (bill_of-Names st fetched.identity.identity (Known.first known) (Known.parties known)) in
      ground (arith, names.id, same_first)

  pub chain_rows : fetched.blockchain ≡ st.bills.rows bill_id
  unfolding Store.get_chain
  chain_rows =
      (new_from_blocks-IsReadable V.bill (st.bills.rows bill_id) {chain = fetched.blockchain}
        (Known.chain_read known)).1

  module _ (back : ReadsData V L action fetched signer signer_keys timestamp) where
    -- What is known of the block that an action stored.
    pub Executed-Read :
        (block : BillBlock)
        (e : Executed V bill_id action signer signer_keys timestamp st fetched block)
        → Read V L bill_id action signer signer_keys timestamp st bill_keys fetched known has_keys
            identified e.previous block
    Executed-Read block e =
        Created-Read V L bill_id action signer signer_keys timestamp st bill_keys fetched known
          has_keys identified back e.previous block
          (new_block-Created V L bill_id action signer signer_keys timestamp st bill_keys fetched
            known has_keys identified e.previous {block = block} e.created)

    pub Executed-Admissible :
        (block : BillBlock)
        → (e : Executed V bill_id action signer signer_keys timestamp st fetched block)
        → Admissible V.bill first fetched.bill_keys
            (st.bills.is_paid bill_id)
            (st.bills.rows bill_id)
            block
          × (e.bills
              ≡ with_block V.bill first fetched.bill_keys
                  (st.bills.is_paid bill_id)
                  bill_id
                  block
                  st.bills)
    Executed-Admissible block e =
        let r = Executed-Read block e in
        let adm =
          Read-Admissible V L bill_id action signer signer_keys timestamp st bill_keys fetched known
            has_keys identified e.previous block e.previous_is_last e.allowed r in
        (
          subst (λ c. Admissible V.bill first fetched.bill_keys (st.bills.is_paid bill_id) c block)
              chain_rows
              (subst (λ p. Admissible V.bill first fetched.bill_keys p fetched.blockchain block)
                (sym (Known.same_paid known))
                (subst
                  (λ f.
                    Admissible V.bill f fetched.bill_keys fetched.is_paid fetched.blockchain block)
                  same_first adm)),
          add_block-with_block V.bill first fetched.bill_keys (st.bills.is_paid bill_id) bill_id
              block st.bills {bills = e.bills} (r.own ∙ own_bill)
              (ap (λ i. Store.add_block V.bill i block st.bills) (sym own_bill) ∙ e.stored),
        )

    abbrev done : Result ServiceError BillBlockchain × ServiceState
    done = run V bill_id action signer signer_keys timestamp st

    -- What the identity's and the company's chains make of the stored block.
    abbrev noted :
        String
        → BillBlockchain
        → Store
        → BillBlock
        → Result ServiceError BillBlockchain × ServiceState
    noted id chain bills block =
        (add_identity_and_company_chain_blocks_for_signed_bill_action V signer id block
              fetched.identity.key_pair signer_keys timestamp
            >>= λ done. pure (chain ++ block ∷ []))
          (record st { bills = bills })

    -- The second of the two ends, for what the action fetched.
    abbrev Grew : BillBlock → BillBlockchain → Type 0
    Grew block chain =
        let (r, st') = execute_bill_action V bill_id action signer signer_keys timestamp st in
        (block.bill_id ≡ bill_id)
        × Admissible V.bill first fetched.bill_keys (st.bills.is_paid bill_id)
            (st.bills.rows bill_id) block
        × (st'.bills ≡ record st.bills {
          rows = update st.bills.rows bill_id (st.bills.rows bill_id ++ block ∷ []);
        })
        × (Fails r ⊎ (r ≡ ok (chain ++ block ∷ [])))
        × ((r, st')
            ≡ noted bill_id chain
                (record st.bills {
                  rows = update st.bills.rows bill_id (st.bills.rows bill_id ++ block ∷ []);
                })
                block)

    fetched-Grew :
        (block : BillBlock)
        (e : Executed V bill_id action signer signer_keys timestamp st fetched block)
        → done.1.bills ≡ e.bills
        → Fails done.0 ⊎ (done.0 ≡ ok (fetched.blockchain ++ block ∷ []))
        → Grew block (st.bills.rows bill_id)
    fetched-Grew block e stored ended =
        let (adm, written) = Executed-Admissible block e in
        (
          (Executed-Read block e).own ∙ own_bill,
          adm,
          stored ∙ written,
          subst (λ c. Fails done.0 ⊎ (done.0 ≡ ok (c ++ block ∷ []))) chain_rows ended,
          Executed-run V bill_id action signer signer_keys timestamp st e
              ∙ ap (λ i. noted i fetched.blockchain e.bills block) own_bill
              ∙ ap (λ c. noted bill_id c e.bills block) chain_rows
              ∙ ap (λ b. noted bill_id (st.bills.rows bill_id) b block) written,
        )

    Executed-Grew :
        (fetched' : Fetched)
        → fetched' ≡ fetched
        → (block : BillBlock)
          (e : Executed V bill_id action signer signer_keys timestamp st fetched' block)
        → done.1.bills ≡ e.bills
        → Fails done.0 ⊎ (done.0 ≡ ok (fetched'.blockchain ++ block ∷ []))
        → Grew block (st.bills.rows bill_id)
    Executed-Grew fetched' same =
        subst
          (λ f.
            (block : BillBlock)
            (e : Executed V bill_id action signer signer_keys timestamp st f block)
            → done.1.bills ≡ e.bills
            → Fails done.0 ⊎ (done.0 ≡ ok (f.blockchain ++ block ∷ []))
            → Grew block (st.bills.rows bill_id))
          (sym same) fetched-Grew

    -- The user's action on a bill, where the user's node ids are the public keys of the keys that
    -- sign, the bill's keys are a key pair, and the bill is stored under its own id; up to the
    -- blocks, that is before the cached bill is calculated again and the messages are sent. Either
    -- the action ends in an error or a panic and the tables of bills stay as they were. Or exactly
    -- one block is stored, at the end of the bill's chain: it fits the block before it, is signed by
    -- the party that its data names, and stands for an action that is allowed to that party there,
    -- as a received block must; and then the action is what the identity's and the company's own
    -- chains make of this block: the bill's chain with the block, or their error or panic.
    pub execute_bill_action-Appends :
        let (r, st') = execute_bill_action V bill_id action signer signer_keys timestamp st in
        (st'.bills ≡ st.bills) × Fails r
        ⊎ (block : BillBlock) × (block.bill_id ≡ bill_id)
          × Admissible V.bill first fetched.bill_keys
              (st.bills.is_paid bill_id)
              (st.bills.rows bill_id)
              block
          × (st'.bills ≡ record st.bills {
            rows = update st.bills.rows bill_id (st.bills.rows bill_id ++ block ∷ []);
          })
          × (Fails r ⊎ (r ≡ ok (st.bills.rows bill_id ++ block ∷ [])))
          × ((r, st')
              ≡ (add_identity_and_company_chain_blocks_for_signed_bill_action V signer bill_id block
                      fetched.identity.key_pair signer_keys timestamp
                    >>= λ done. pure (st.bills.rows bill_id ++ block ∷ []))
                  (record st {
                    bills = record st.bills {
                      rows = update st.bills.rows bill_id (st.bills.rows bill_id ++ block ∷ []);
                    };
                  }))
    execute_bill_action-Appends =
        elim (execute_bill_action-Ends V bill_id action signer signer_keys timestamp st) [
          | inl unchanged ↦ inl unchanged
          | inr (fetched', block, e, stored, ended) ↦
              let (own_block, adm, written, end, ledgers) =
                Executed-Grew fetched' (ground (arith, e.fetch)) block e stored ended in
              inr (block, own_block, adm, written, end, ledgers)
        ]
