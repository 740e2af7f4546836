-- ===== src/Service/Fetch/Known.antt =====
-- What an action of the user finds in the tables.
use e_bill.Prelude.{◌≡◌, refl, String, some, arith, ok, Result-cases, Option-cases, inl, inr}
use e_bill.Bill.Data.{BillIssueBlockData}
use e_bill.Bill.Env.{BillEnv}
use e_bill.Bill.Chain.{BillParties, get_first_version_bill, get_bill_parties}
use e_bill.Ledger.Data.{Identity}
use e_bill.Handler.Store
use e_bill.Handler.Chain.{node_id_of}
use e_bill.Service.Execute.{endorsee_id}
use e_bill.Service.State.{ServiceState}
use e_bill.Service.Fetch.{
  BitcreditBill, Fetched, bill_of, extended,
  extend_bill_chain_identity_data_from_contacts_or_identity, get_last_version_bill, fetch_data,
}

module _ (V : BillEnv) (bill_id : String) (st : ServiceState) (fetched : Fetched) where
  pub record Known : Type 0 where
    pub chain_read : Store.get_chain V bill_id st.bills ≡ ok fetched.blockchain
    pub has_keys : st.bills.keys bill_id ≡ some fetched.bill_keys
    pub first : BillIssueBlockData
    pub parties : BillParties
    pub first_known : get_first_version_bill V fetched.blockchain fetched.bill_keys ≡ ok first
    pub parties_known : get_bill_parties V fetched.blockchain fetched.bill_keys first ≡ ok parties
    pub same_bill : bill_of st fetched.identity.identity first parties ≡ fetched.bill
    pub same_paid : st.bills.is_paid bill_id ≡ fetched.is_paid

  pub fetch_data-Known : fetch_data V bill_id st ≡ ok fetched → Known
  unfolding fetch_data get_last_version_bill Store.get_keys
  fetch_data-Known h = elim (Option-cases st.identity) [
    | inl e ↦ absurd (ground arith)
    | inr (identity, e) ↦ elim (Result-cases (Store.get_chain V bill_id st.bills)) [
      | inl (chain, f) ↦ elim (Option-cases (st.bills.keys bill_id)) [
        | inl g ↦ absurd (ground arith)
        | inr (keys, g) ↦ elim (Result-cases (get_first_version_bill V chain keys)) [
          | inl (first, k) ↦ elim (Result-cases (get_bill_parties V chain keys first)) [
            | inl (parties, m) ↦ record {
              chain_read = ground arith;
              has_keys = ground arith;
              first = first;
              parties = parties;
              first_known = ground arith;
              parties_known = ground arith;
              same_bill = ground arith;
              same_paid = ground arith;
            }
            | inr failed ↦ absurd (ground arith)
          ]
          | inr failed ↦ absurd (ground arith)
        ]
      ]
      | inr failed ↦ absurd (ground arith)
    ]
  ]

-- A bill names the parties of its chain, whatever the contacts say of them.
pub record Names (bill : BitcreditBill) (first : BillIssueBlockData) (parties : BillParties)
    : Type 0 where
  pub drawee : bill.drawee.node_id ≡ parties.drawee.node_id
  pub payee : bill.payee.node_id ≡ parties.payee.node_id
  pub endorsee : endorsee_id bill.endorsee ≡ node_id_of parties.endorsee
  pub maturity_date : bill.maturity_date ≡ first.maturity_date
  pub id : bill.id ≡ first.id

pub bill_of-Names :
    (st : ServiceState) (identity : Identity) (first : BillIssueBlockData) (parties : BillParties)
    → Names (bill_of st identity first parties) first parties
unfolding bill_of extended extend_bill_chain_identity_data_from_contacts_or_identity
bill_of-Names st identity first parties = record {
  drawee = refl;
  payee = refl;
  endorsee = ground arith;
  maturity_date = refl;
  id = refl;
}
