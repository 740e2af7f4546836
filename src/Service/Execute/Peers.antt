-- ===== src/Service/Execute/Peers.antt =====
-- The block of an action at the other nodes of the bill.
use e_bill.Prelude.{
  ℕ, ◌+◌, ◌<◌, ◌≡◌, ◌∙◌, refl, sym, ap, subst, String, false, Option, some, [], ◌∷◌, ◌++◌, arith,
  ok, inl, inr, last, u64_mod, eq_refl,
}
use e_bill.Contact.{IdentityPublicData}
use e_bill.Util.Crypto.{BcrKeys}
use e_bill.Util.Crypto.Laws.{Laws}
use e_bill.Bill.Data.{BillBlock, BillAction, BillIssueBlockData, BillKeys}
use e_bill.Bill.Create.RoundTrip.{bill_key_strings}
use e_bill.Bill.Chain.{BillBlockchain, get_first_version_bill}
use e_bill.Handler.Store
use e_bill.Handler.Store.{Store, update}
use e_bill.Handler.Chain.{process_chain_data}
use e_bill.Handler.Complete.{process_chain_data-stores}
use e_bill.Handler.Safety.{Admissible}
use e_bill.Service.State.{ServiceEnv, ServiceState}
use e_bill.Service.Fetch.{Fetched, fetch_data}
use e_bill.Service.Fetch.Known.{Known, fetch_data-Known}
use e_bill.Service.Execute.{execute_bill_action}
use e_bill.Service.Execute.Outcome.{Fails}
use e_bill.Service.Execute.Reading.{Identified, ReadsData}
use e_bill.Service.Execute.Admitted.{chain_rows, execute_bill_action-Appends}

-- A peer stores for the bill what the user's node stored before the action.
pub record InStep (bill_id : String) (own peer : Store) : Type 0 where
  pub rows : peer.rows bill_id ≡ own.rows bill_id
  pub keys : peer.keys bill_id ≡ own.keys bill_id
  pub is_paid : peer.is_paid bill_id ≡ own.is_paid bill_id

module _ (V : ServiceEnv) (L : Laws V.bill.platform) (bill_id : String) (action : BillAction)
    (signer : IdentityPublicData) (signer_keys : BcrKeys) (timestamp : ℕ) (st : ServiceState)
    (bill_keys : BcrKeys) (fetched : Fetched) (first : BillIssueBlockData)
    (fetch : fetch_data V.bill bill_id st ≡ ok fetched)
    (issued : get_first_version_bill V.bill fetched.blockchain fetched.bill_keys ≡ ok first)
    (own : first.id ≡ bill_id)
    (has_keys : st.bills.keys bill_id ≡ some (bill_key_strings V.bill L bill_keys))
    (identified : Identified V.bill signer signer_keys fetched.identity)
    (back : ReadsData V L action fetched signer signer_keys timestamp) where
  -- A peer that stores the same for the bill and receives the block takes it in.
  peer-stores :
      (block : BillBlock) (peer : Store) (sent : Option BillKeys)
      → block.bill_id ≡ bill_id
      → (adm : Admissible V.bill first fetched.bill_keys
          (st.bills.is_paid bill_id)
          (st.bills.rows bill_id)
          block)
      → adm.latest.id + 1 < u64_mod
      → InStep bill_id st.bills peer
      → (peer' : Store) × (process_chain_data V.bill bill_id (block ∷ []) sent peer
          ≡ (ok tt, peer'))
        × (peer'.rows bill_id ≡ st.bills.rows bill_id ++ block ∷ [])
        × (peer'.cached bill_id ≡ false)
  unfolding Store.get_chain
  peer-stores block peer sent own_block adm small same =
      let known = fetch_data-Known V.bill bill_id st fetched fetch in
      let rows =
        chain_rows V L bill_id action signer signer_keys timestamp st bill_keys fetched first fetch
          issued own has_keys identified in
      process_chain_data-stores V.bill bill_id block [] sent peer (st.bills.rows bill_id)
        fetched.bill_keys first (ground (arith, same.rows, Known.chain_read known, rows))
        (same.keys ∙ Known.has_keys known)
        (ap (λ c. get_first_version_bill V.bill c fetched.bill_keys) (sym rows) ∙ issued)
        (own_block, tt)
        (subst
          (λ p.
            ((a : Admissible V.bill first fetched.bill_keys p (st.bills.rows bill_id) block)
              × (a.latest.id + 1 < u64_mod))
            × Unit)
          (sym same.is_paid) ((adm, small), tt))

  -- An action of the user that ends well, on a chain whose last id is below the 64-bit bound, where
  -- the node ids are the public keys of the keys that sign, the bill's keys are a key pair, and the
  -- bill is stored under its own id: the chain that it answers is the old one with one block behind
  -- it, and every node that stored the same chain, keys and payment for the bill, and then receives
  -- this block, ends without an error with the same chain as the user's node, and drops its cached
  -- result.
  pub execute_bill_action-process_chain_data :
      (chain' : BillBlockchain)
      → (execute_bill_action V bill_id action signer signer_keys timestamp st).0 ≡ ok chain'
      → ((latest : BillBlock)
          → last (st.bills.rows bill_id) ≡ some latest
          → latest.id + 1 < u64_mod)
      → (block : BillBlock) × (chain' ≡ st.bills.rows bill_id ++ block ∷ [])
        × ((peer : Store) (sent : Option BillKeys)
            → InStep bill_id st.bills peer
            → (peer' : Store) × (process_chain_data V.bill bill_id (block ∷ []) sent peer
                ≡ (ok tt, peer'))
              × (peer'.rows bill_id
                  ≡ (execute_bill_action V bill_id action signer signer_keys timestamp
                        st).1.bills.rows
                      bill_id)
              × (peer'.cached bill_id ≡ false))
  execute_bill_action-process_chain_data chain' done small =
      elim (execute_bill_action-Appends V L bill_id action signer signer_keys timestamp st bill_keys
        fetched first fetch issued own has_keys identified back) [
          | inl (_, fails) ↦ absurd (subst Fails done fails)
          | inr (block, own_block, adm, written, inl fails, end) ↦ absurd (subst Fails done fails)
          | inr (block, own_block, adm, written, inr answer, end) ↦ (
            block,
            ground (arith, answer),
            λ peer sent same.
                let (peer', ended, rows, dropped) =
                  peer-stores block peer sent own_block adm (small adm.latest adm.latest_is_last)
                    same in
                (
                  peer',
                  ended,
                  rows
                      ∙ sym
                          (ap (λ (s : Store). s.rows bill_id) written ∙ rw (eq_refl bill_id) refl),
                  dropped,
                ),
          )
        ]
