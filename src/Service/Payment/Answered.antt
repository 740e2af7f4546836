-- ===== src/Service/Payment/Answered.antt =====
-- The blocks that are stored when an offer to sell or a request for recourse is paid.
use e_bill.Prelude.{
  false, ◌<◌, ℕ, ◌≡◌, ◌⊎◌, inl, inr, refl, ◌∙◌, String, Bool, true, Option, none, some, any, arith,
  Result, ok, err, panic, ◌==◌, eq_iff, Option-cases, Result-cases, Bool-cases,
}
use e_bill.Contact.{IdentityPublicData}
use e_bill.Error.{BlockchainError}
use e_bill.Util.Crypto.{BcrKeys, from_private_key}
use e_bill.Bill.Data.{
  BillBlock, BillKeys, BillAction, PaymentInfo, RecoursePaymentInfo, OfferToSellWaitingForPayment,
  RecourseWaitingForPayment,
}
use e_bill.Bill.Chain.{
  BillBlockchain, is_last_offer_to_sell_block_waiting_for_payment,
  is_last_request_to_recourse_block_waiting_for_payment,
}
use e_bill.Ledger.Data.{IdentityWithAll, Company, CompanyKeys}
use e_bill.Handler.Store
use e_bill.Handler.Store.{Store}
use e_bill.Service.State.{ServiceEnv, ServiceState}
use e_bill.Service.Fetch.{Fetched}
use e_bill.Service.Execute.{execute_bill_action}
use e_bill.Service.Execute.Outcome.{Executed, execute_bill_action-Ends}
use e_bill.Service.Payment.{
  answer_payment, sell_action, recourse_action, received, identity_public_data, company_public_data,
  check_bill_offer_to_sell_payment, check_bill_in_recourse_payment, act_as_user, act_as_company,
  sell_if_paid, recourse_if_paid,
}

-- The block explorer has seen a transfer of the sum, and of more than nothing.
abbrev pub Arrived : Option (Bool × ℕ) → Type 0
Arrived answer = (sum : ℕ) × (answer ≡ some (true, sum)) × 0 < sum

received-Arrived : (answer : Option (Bool × ℕ)) → received answer ≡ true → Arrived answer
unfolding received
received-Arrived none h = absurd (ground arith)
received-Arrived (some (true, sum)) h = (sum, refl, ground arith)
received-Arrived (some (false, sum)) h = absurd (ground arith)

module _ (V : ServiceEnv) (check_if_paid : String → ℕ → Option (Bool × ℕ))
    (local_companies : String → Option (Company × CompanyKeys)) (bill_id : String)
    (identity : IdentityWithAll) (now : ℕ) (st : ServiceState) where
  open V use {bill}

  -- For whom the user may act: for himself, and for a company of which he is a signatory.
  abbrev pub ActsFor : String → IdentityPublicData → BcrKeys → Type 0
  ActsFor party signer keys =
      (party ≡ identity.identity.node_id)
        × (identity_public_data identity.identity ≡ some signer)
        × (keys ≡ identity.key_pair)
      ⊎ (company : Company) × (company_keys : CompanyKeys) × (local_companies party
          ≡ some (company, company_keys))
        × (any (λ s. s == identity.identity.node_id) company.signatories ≡ true)
        × (signer ≡ company_public_data company)
        × (from_private_key bill.platform company_keys.private_key ≡ ok keys)

  -- The action was executed for this party, and these are the tables of bills with its block.
  abbrev pub Answered : String → BillAction → Store → Type 0
  Answered party action bills =
      (signer : IdentityPublicData) × (keys : BcrKeys) × ActsFor party signer keys
      × (fetched : Fetched) × (block : BillBlock) × (e : Executed V bill_id action signer keys now
          st fetched block)
      × (bills ≡ e.bills)

  user_bills :
      (action : BillAction) (signer : IdentityPublicData) (keys : BcrKeys)
      → (act_as_user V check_if_paid local_companies bill_id action
          (some signer)
          keys
          now
          st).1.bills
        ≡ (execute_bill_action V bill_id action signer keys now st).1.bills
  unfolding act_as_user
  user_bills action signer keys = ground arith

  executed-Answered :
      (party : String) (action : BillAction) (signer : IdentityPublicData) (keys : BcrKeys)
      → ActsFor party signer keys
      → let bills =
          (act_as_user V check_if_paid local_companies bill_id action
            (some signer)
            keys
            now
            st).1.bills in
        (bills ≡ st.bills) ⊎ Answered party action bills
  executed-Answered party action signer keys acts =
      elim (execute_bill_action-Ends V bill_id action signer keys now st) [
        | inl (same, failed) ↦ inl (user_bills action signer keys ∙ same)
        | inr (fetched, block, e, stored, ended) ↦
            inr (signer, keys, acts, fetched, block, e, user_bills action signer keys ∙ stored)
      ]

  user-Answered :
      (party : String) (action : BillAction)
      → party ≡ identity.identity.node_id
      → (known : Option IdentityPublicData) → identity_public_data identity.identity ≡ known
      → let bills =
          (act_as_user V check_if_paid local_companies bill_id action known identity.key_pair now
            st).1.bills in
        (bills ≡ st.bills) ⊎ Answered party action bills
  unfolding act_as_user
  user-Answered party action own none e = inl refl
  user-Answered party action own (some signer) e =
      executed-Answered party action signer identity.key_pair (inl (own, e, refl))

  company-Answered :
      (party : String) (action : BillAction) (local : Option (Company × CompanyKeys))
      → local_companies party ≡ local
      → let bills =
          (act_as_company V check_if_paid local_companies bill_id action local
            identity.identity.node_id now st).1.bills in
        (bills ≡ st.bills) ⊎ Answered party action bills
  unfolding act_as_company
  company-Answered party action none e = inl refl
  company-Answered party action (some (company, company_keys)) e =
      elim (Bool-cases (any (λ s. s == identity.identity.node_id) company.signatories)) [
        | inl signs ↦
            elim (Result-cases (from_private_key bill.platform company_keys.private_key)) [
              | inl (keys, read) ↦
                  rw (signs, read)
                    (executed-Answered party action (company_public_data company) keys
                      (inr (company, company_keys, e, signs, refl, read)))
              | inr failed ↦ ground arith
            ]
        | inr unsigned ↦ ground arith
      ]

  answer_payment-Answered :
      (party : String) (action : BillAction)
      → let bills =
          (answer_payment V check_if_paid local_companies bill_id party action identity now
            st).1.bills in
        (bills ≡ st.bills) ⊎ Answered party action bills
  unfolding answer_payment
  answer_payment-Answered party action = elim (Bool-cases (party == identity.identity.node_id)) [
    | inl own ↦ rw own (
        user-Answered party action ((eq_iff party identity.identity.node_id).0 own)
          (identity_public_data identity.identity) refl)
    | inr other ↦ rw other (company-Answered party action (local_companies party) refl)
  ]

  -- The offer to sell that waits for its payment, which arrived.
  abbrev pub Sells : Store → Type 0
  Sells bills =
      (chain : BillBlockchain) × (bill_keys : BillKeys) × (info : PaymentInfo) × (Store.get_chain
          bill bill_id st.bills
        ≡ ok chain)
      × (Store.get_keys bill_id st.bills ≡ ok bill_keys)
      × (is_last_offer_to_sell_block_waiting_for_payment bill chain bill_keys now
          ≡ ok (OfferToSellWaitingForPayment.waiting info))
      × Arrived (check_if_paid info.payment_address info.sum)
      × Answered info.seller.node_id (sell_action st identity.identity info) bills

  sell_if_paid-Answered :
      (waits : Result BlockchainError OfferToSellWaitingForPayment)
      → let bills =
          (sell_if_paid V check_if_paid local_companies bill_id identity now waits st).1.bills in
        (bills ≡ st.bills)
        ⊎ (info : PaymentInfo) × (waits ≡ ok (OfferToSellWaitingForPayment.waiting info))
          × Arrived (check_if_paid info.payment_address info.sum)
          × Answered info.seller.node_id (sell_action st identity.identity info) bills
  unfolding sell_if_paid
  sell_if_paid-Answered (ok (OfferToSellWaitingForPayment.waiting info)) =
      elim (Bool-cases (received (check_if_paid info.payment_address info.sum))) [
        | inl paid ↦
            elim (answer_payment-Answered info.seller.node_id
              (sell_action st identity.identity info)) [
                | inl same ↦ inl (rw paid same)
                | inr answered ↦ inr (
                  info,
                  refl,
                  received-Arrived (check_if_paid info.payment_address info.sum) paid,
                  rw paid answered,
                )
              ]
        | inr unpaid ↦ inl (ground arith)
      ]
  sell_if_paid-Answered (ok OfferToSellWaitingForPayment.not_waiting) = inl refl
  sell_if_paid-Answered (err e) = inl refl
  sell_if_paid-Answered panic = inl refl

  -- After the check of a bill for the payment of a sale, the tables of bills are as before; or an
  -- offer to sell waits in the bill's stored chain, its sum has arrived at its address, the user is
  -- the seller or a signatory of the selling company, and the tables have grown by the block of the
  -- sale to the buyer of the offer, for its sum, which passed the validation as that seller's.
  pub check_bill_offer_to_sell_payment-Sells :
      let bills =
        (check_bill_offer_to_sell_payment V check_if_paid local_companies bill_id identity now
          st).1.bills in
      (bills ≡ st.bills) ⊎ Sells bills
  unfolding check_bill_offer_to_sell_payment
  check_bill_offer_to_sell_payment-Sells = elim (Result-cases (Store.get_keys bill_id st.bills)) [
    | inl (bill_keys, has_keys) ↦ elim (Result-cases (Store.get_chain bill bill_id st.bills)) [
      | inl (chain, known) ↦
          elim (sell_if_paid-Answered
            (is_last_offer_to_sell_block_waiting_for_payment bill chain bill_keys now)) [
              | inl same ↦ inl (rw (has_keys, known) same)
              | inr (info, waits, paid, answered) ↦ inr (
                chain,
                bill_keys,
                info,
                known,
                has_keys,
                waits,
                paid,
                rw (has_keys, known) answered,
              )
            ]
      | inr failed ↦ inl (ground arith)
    ]
    | inr failed ↦ inl (ground arith)
  ]

  -- The request for recourse that waits for its payment, which arrived.
  abbrev pub Recourses : Store → Type 0
  Recourses bills =
      (chain : BillBlockchain) × (bill_keys : BillKeys) × (info : RecoursePaymentInfo)
      × (address : String) × (Store.get_chain bill bill_id st.bills ≡ ok chain)
      × (Store.get_keys bill_id st.bills ≡ ok bill_keys)
      × (is_last_request_to_recourse_block_waiting_for_payment bill chain bill_keys now
          ≡ ok (RecourseWaitingForPayment.waiting info))
      × (V.get_address_to_pay bill_keys.public_key info.recourser.node_id ≡ some address)
      × Arrived (check_if_paid address info.sum)
      × Answered info.recourser.node_id (recourse_action st identity.identity info) bills

  recourse_if_paid-Answered :
      (bill_keys : BillKeys) (waits : Result BlockchainError RecourseWaitingForPayment)
      → let bills =
          (recourse_if_paid V check_if_paid local_companies bill_id identity bill_keys now waits
            st).1.bills in
        (bills ≡ st.bills)
        ⊎ (info : RecoursePaymentInfo) × (address : String) × (waits
            ≡ ok (RecourseWaitingForPayment.waiting info))
          × (V.get_address_to_pay bill_keys.public_key info.recourser.node_id ≡ some address)
          × Arrived (check_if_paid address info.sum)
          × Answered info.recourser.node_id (recourse_action st identity.identity info) bills
  unfolding recourse_if_paid
  recourse_if_paid-Answered bill_keys (ok (RecourseWaitingForPayment.waiting info)) =
      elim (Option-cases (V.get_address_to_pay bill_keys.public_key info.recourser.node_id)) [
        | inl missing ↦ inl (ground arith)
        | inr (address, found) ↦ elim (Bool-cases (received (check_if_paid address info.sum))) [
          | inl paid ↦
              elim (answer_payment-Answered info.recourser.node_id
                (recourse_action st identity.identity info)) [
                  | inl same ↦ inl (rw (found, paid) same)
                  | inr answered ↦ inr (
                    info,
                    address,
                    refl,
                    found,
                    received-Arrived (check_if_paid address info.sum) paid,
                    rw (found, paid) answered,
                  )
                ]
          | inr unpaid ↦ inl (ground arith)
        ]
      ]
  recourse_if_paid-Answered bill_keys (ok RecourseWaitingForPayment.not_waiting) = inl refl
  recourse_if_paid-Answered bill_keys (err e) = inl refl
  recourse_if_paid-Answered bill_keys panic = inl refl

  -- After the check of a bill for the payment of its recourse, the tables of bills are as before; or
  -- a request for recourse waits in the bill's stored chain, its sum has arrived at the address of
  -- the bill's and the recourser's keys, the user is the recourser or a signatory of the recoursing
  -- company, and the tables have grown by the block of the recourse to the recoursee of the
  -- request, for its sum, which passed the validation as that recourser's.
  pub check_bill_in_recourse_payment-Recourses :
      let bills =
        (check_bill_in_recourse_payment V check_if_paid local_companies bill_id identity now
          st).1.bills in
      (bills ≡ st.bills) ⊎ Recourses bills
  unfolding check_bill_in_recourse_payment
  check_bill_in_recourse_payment-Recourses = elim (Result-cases (Store.get_keys bill_id st.bills)) [
    | inl (bill_keys, has_keys) ↦ elim (Result-cases (Store.get_chain bill bill_id st.bills)) [
      | inl (chain, known) ↦
          elim (recourse_if_paid-Answered bill_keys
            (is_last_request_to_recourse_block_waiting_for_payment bill chain bill_keys now)) [
              | inl same ↦ inl (rw (has_keys, known) same)
              | inr (info, address, waits, found, paid, answered) ↦ inr (
                chain,
                bill_keys,
                info,
                address,
                known,
                has_keys,
                waits,
                found,
                paid,
                rw (has_keys, known) answered,
              )
            ]
      | inr failed ↦ inl (ground arith)
    ]
    | inr failed ↦ inl (ground arith)
  ]
