-- ===== src/Service/Payment.antt =====
-- payment.rs: what is done when a bill, an offer to sell or a request for recourse is paid.
pub mod Answered
use e_bill.Prelude.{
  ℕ, String, Bool, true, false, ◌&&◌, Option, none, some, List, Result, ok, err, panic, map_err,
  ok_or, any, ltb, ◌==◌, if◌then◌else◌,
}
use e_bill.Contact.{ContactType, IdentityPublicData, to_full_postal_address, PostalAddress}
use e_bill.Util.Crypto.{BcrKeys, from_private_key}
use e_bill.Error.{BlockchainError}
use e_bill.Blockchain.{block_with_operation_code_exists}
use e_bill.Bill.Data.{
  BillAction, BillOpCode, BillKeys, RecourseReason, BillRecourseReasonBlockData, PaymentInfo,
  RecoursePaymentInfo, OfferToSellWaitingForPayment, RecourseWaitingForPayment,
}
use e_bill.Bill.Block.{bill_block}
use e_bill.Bill.Chain.{
  BillBlockchain, is_last_offer_to_sell_block_waiting_for_payment,
  is_last_request_to_recourse_block_waiting_for_payment,
}
use e_bill.Ledger.Data.{Identity, IdentityWithAll, Company, CompanyKeys}
use e_bill.Handler.Store
use e_bill.Service.State.{
  ServiceEnv, ServiceState, ServiceError, blockchain, persistence, external_api, cryptography, Run,
  bind, ◌>>=◌, pure,
}
use e_bill.Service.Fetch.{
  BitcreditBill, get_last_version_bill, extend_bill_chain_identity_data_from_contacts_or_identity,
}
use e_bill.Service.Execute.{execute_bill_action}

-- `IdentityPublicData::new`, which answers nothing for an incomplete address.
unfoldable pub person_data : Identity → Option PostalAddress → Option IdentityPublicData
person_data identity none = none
person_data identity (some postal_address) = some (record {
  t = ContactType.person;
  node_id = identity.node_id;
  name = identity.name;
  postal_address = postal_address;
  email = some identity.email;
  nostr_relay = identity.nostr_relay;
})

unfoldable pub identity_public_data : Identity → Option IdentityPublicData
unfolding person_data
identity_public_data identity =
    person_data identity (to_full_postal_address identity.postal_address)

-- `From<Company> for IdentityPublicData`
unfoldable pub company_public_data : Company → IdentityPublicData
company_public_data company = record {
  t = ContactType.company;
  node_id = company.id;
  name = company.name;
  postal_address = company.postal_address;
  email = some company.email;
  nostr_relay = none;
}

-- The id of the payee, or of the endorsee where there is one.
unfoldable pub payment_holder : IdentityPublicData → Option IdentityPublicData → String
payment_holder payee none = payee.node_id
payment_holder payee (some endorsee) = endorsee.node_id

-- `if let Ok((paid, sum))`, and `paid && sum > 0`
unfoldable pub received : Option (Bool × ℕ) → Bool
received none = false
received (some (paid, sum)) = paid && ltb 0 sum

unfoldable pub reason_of : RecoursePaymentInfo → BillRecourseReasonBlockData → RecourseReason
reason_of info BillRecourseReasonBlockData.pay = RecourseReason.pay info.sum info.currency
reason_of info BillRecourseReasonBlockData.accept = RecourseReason.accept

-- The actions that a payment leads to.
unfoldable pub sell_action : ServiceState → Identity → PaymentInfo → BillAction
sell_action st identity info =
    BillAction.sell
      (extend_bill_chain_identity_data_from_contacts_or_identity st identity info.buyer) info.sum
      info.currency info.payment_address

unfoldable pub recourse_action : ServiceState → Identity → RecoursePaymentInfo → BillAction
recourse_action st identity info =
    BillAction.recourse
      (extend_bill_chain_identity_data_from_contacts_or_identity st identity info.recoursee)
      info.sum info.currency (reason_of info info.reason)

-- `check_if_paid` asks the block explorer for an address and a sum; `local_companies` is what the
-- table of companies answers.
module _ (V : ServiceEnv) (check_if_paid : String → ℕ → Option (Bool × ℕ))
    (local_companies : String → Option (Company × CompanyKeys)) where
  open V use {bill}

  unfoldable pub check_bill_payment : String → Identity → Run Unit
  unfolding received payment_holder
  check_bill_payment bill_id identity st =
      bind (map_err (λ e. persistence) (Store.get_chain bill bill_id st.bills))
        (λ chain. bind (map_err (λ e. persistence) (Store.get_keys bill_id st.bills)) (λ bill_keys.
          bind (map_err blockchain (get_last_version_bill bill st chain bill_keys identity))
            (λ current st₁.
              if block_with_operation_code_exists bill.platform (bill_block bill) chain
                BillOpCode.request_recourse
              then (ok tt, st₁)
              else bind
                  (ok_or
                    (V.get_address_to_pay bill_keys.public_key
                      (payment_holder current.payee current.endorsee))
                    external_api)
                  (λ address st₂.
                    if received (check_if_paid address current.sum)
                    then (
                      ok tt,
                      record st₂ {
                        bills =
                            Store.invalidate_bill_in_cache bill_id
                              (Store.set_to_paid bill_id address st₂.bills);
                      },
                    )
                    else (ok tt, st₂))
                  st₁)))
        st

  -- The action is done as the user, or as a company of which the user is a signatory.
  unfoldable pub act_as_user :
      String → BillAction → Option IdentityPublicData → BcrKeys → ℕ → Run Unit
  act_as_user bill_id action none keys now st = (ok tt, st)
  act_as_user bill_id action (some signer) keys now st =
      (execute_bill_action V bill_id action signer keys now >>= λ chain. pure tt) st

  unfoldable pub act_as_company :
      String → BillAction → Option (Company × CompanyKeys) → String → ℕ → Run Unit
  unfolding act_as_user
  act_as_company bill_id action none node_id now st = (ok tt, st)
  act_as_company bill_id action (some (company, keys)) node_id now st =
      if any (λ s. s == node_id) company.signatories
      then bind (map_err cryptography (from_private_key bill.platform keys.private_key))
          (λ key_pair. act_as_user bill_id action (some (company_public_data company)) key_pair now)
          st
      else (ok tt, st)

  -- The party that was paid answers with the action.
  unfoldable pub answer_payment : String → String → BillAction → IdentityWithAll → ℕ → Run Unit
  unfolding act_as_user act_as_company
  answer_payment bill_id paid_party action identity now st =
      if paid_party == identity.identity.node_id
      then act_as_user bill_id action (identity_public_data identity.identity) identity.key_pair now
          st
      else act_as_company bill_id action (local_companies paid_party) identity.identity.node_id now
          st

  -- With the answer of `is_last_offer_to_sell_block_waiting_for_payment`.
  unfoldable pub sell_if_paid :
      String → IdentityWithAll → ℕ → Result BlockchainError OfferToSellWaitingForPayment → Run Unit
  sell_if_paid bill_id identity now (ok (OfferToSellWaitingForPayment.waiting info)) st =
      if received (check_if_paid info.payment_address info.sum)
      then answer_payment bill_id info.seller.node_id (sell_action st identity.identity info)
          identity now st
      else (ok tt, st)
  sell_if_paid bill_id identity now (ok OfferToSellWaitingForPayment.not_waiting) st = (ok tt, st)
  sell_if_paid bill_id identity now (err e) st = (ok tt, st)
  sell_if_paid bill_id identity now panic st = (panic, st)

  unfoldable pub check_bill_offer_to_sell_payment : String → IdentityWithAll → ℕ → Run Unit
  unfolding sell_if_paid
  check_bill_offer_to_sell_payment bill_id identity now st =
      bind (map_err (λ e. persistence) (Store.get_keys bill_id st.bills))
        (λ bill_keys.
          bind (map_err (λ e. persistence) (Store.get_chain bill bill_id st.bills)) (λ chain.
            sell_if_paid bill_id identity now
              (is_last_offer_to_sell_block_waiting_for_payment bill chain bill_keys now)))
        st

  unfoldable pub recourse_if_paid :
      String
      → IdentityWithAll
      → BillKeys
      → ℕ
      → Result BlockchainError RecourseWaitingForPayment
      → Run Unit
  recourse_if_paid bill_id identity bill_keys now (ok (RecourseWaitingForPayment.waiting info)) st =
      bind (ok_or (V.get_address_to_pay bill_keys.public_key info.recourser.node_id) external_api)
        (λ payment_address st₁.
          if received (check_if_paid payment_address info.sum)
          then answer_payment bill_id info.recourser.node_id
              (recourse_action st₁ identity.identity info) identity now st₁
          else (ok tt, st₁))
        st
  recourse_if_paid bill_id identity bill_keys now (ok RecourseWaitingForPayment.not_waiting) st =
      (ok tt, st)
  recourse_if_paid bill_id identity bill_keys now (err e) st = (ok tt, st)
  recourse_if_paid bill_id identity bill_keys now panic st = (panic, st)

  unfoldable pub check_bill_in_recourse_payment : String → IdentityWithAll → ℕ → Run Unit
  unfolding recourse_if_paid
  check_bill_in_recourse_payment bill_id identity now st =
      bind (map_err (λ e. persistence) (Store.get_keys bill_id st.bills))
        (λ bill_keys.
          bind (map_err (λ e. persistence) (Store.get_chain bill bill_id st.bills)) (λ chain.
            recourse_if_paid bill_id identity bill_keys now
              (is_last_request_to_recourse_block_waiting_for_payment bill chain bill_keys now)))
        st
