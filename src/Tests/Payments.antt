-- ===== src/Tests/Payments.antt =====
-- A bill whose offer to sell is paid, and one whose request for recourse is paid.
use e_bill.Prelude.{ℕ, ◌≡◌, ◌⊎◌, String, Bool, true, Option, none, some, [], ◌∷◌}
use e_bill.Bill.Data.{BillBlock}
use e_bill.Ledger.Data.{IdentityWithAll}
use e_bill.Handler.Store.{update}
use e_bill.Service.State.{ServiceEnv, ServiceState}
use e_bill.Service.Payment.{check_bill_offer_to_sell_payment, check_bill_in_recourse_payment}
use e_bill.Service.Payment.Answered.{
  Sells, Recourses, check_bill_offer_to_sell_payment-Sells,
  check_bill_in_recourse_payment-Recourses,
}
use e_bill.Tests.Blocks.{issued, sold_offer, asked_recourse, bill_id, key}
use e_bill.Tests.Events.{stored}
use e_bill.Tests.Execution.{service, node, drawee}

-- The holder of the issued bill.
abbrev holder : IdentityWithAll
holder = record { identity = record drawee { node_id = "aaab" }; key_pair = key 3 }

abbrev all_paid : String → ℕ → Option (Bool × ℕ)
all_paid address sum = some (true, sum)

abbrev with_block : BillBlock → ServiceState
with_block block = record node {
  bills = record stored { rows = update stored.rows bill_id (issued ∷ block ∷ []) };
  identity = some holder;
}

abbrev paying : ServiceEnv
paying = record service { get_address_to_pay = λ bill holder. some "addr" }

check_bill_offer_to_sell_payment-Sells_example :
    let bills =
      (check_bill_offer_to_sell_payment paying all_paid
        (λ id. none)
        bill_id
        holder
        30
        (with_block sold_offer)).1.bills in
    (bills ≡ ServiceState.bills (with_block sold_offer))
    ⊎ Sells paying all_paid (λ id. none) bill_id holder 30 (with_block sold_offer) bills
check_bill_offer_to_sell_payment-Sells_example =
    check_bill_offer_to_sell_payment-Sells paying all_paid (λ id. none) bill_id holder 30
      (with_block sold_offer)

check_bill_in_recourse_payment-Recourses_example :
    let bills =
      (check_bill_in_recourse_payment paying all_paid
        (λ id. none)
        bill_id
        holder
        30
        (with_block asked_recourse)).1.bills in
    (bills ≡ ServiceState.bills (with_block asked_recourse))
    ⊎ Recourses paying all_paid (λ id. none) bill_id holder 30 (with_block asked_recourse) bills
check_bill_in_recourse_payment-Recourses_example =
    check_bill_in_recourse_payment-Recourses paying all_paid (λ id. none) bill_id holder 30
      (with_block asked_recourse)
