-- ===== src/Bill/Action/Recourse.antt =====
-- Against whom, and when, recourse may be requested (`validate` of core/src/bill/validation.rs, with
-- `get_past_endorsees_for_bill` of core/src/blockchain/bill/chain.rs).
use e_bill.Prelude.{
  first_ok, map_err_ok, ◌⊎◌, inl, inr, Bool-cases, Option-cases, Result-cases, ◌+◌, ◌<◌, ℕ, ◌≡◌,
  ◌≢◌, refl, sym, ◌∙◌, Bool, true, false, not, Option, none, some, List, [], ◌∷◌, arith, ok, ◌>>=◌,
  ◌>>◌, fail_if, map_err, eq_iff, ◌==◌, any, All,
}
use e_bill.Error.{ValidationError}
use e_bill.Util.Date.{
  check_if_deadline_has_passed_iff, accept_deadline_seconds, payment_deadline_seconds,
}
use e_bill.Contact.{IdentityPublicData}
use e_bill.Bill.Data.{BillOpCode, BillBlock, BillAction, RecourseReason, BillIssueBlockData}
use e_bill.Bill.Env.{BillEnv}
use e_bill.Bill.Chain.{exists_with_op, last_with_op, get_first_version_bill}
use e_bill.Bill.Endorsees.{PastEndorsee, get_past_endorsees_for_bill}
use e_bill.Bill.Endorsees.Past.{IsEarlierHolder, get_past_endorsees-IsEarlierHolder}
use e_bill.Bill.Action.{
  BillValidateActionData, validate, validate_action, recourse_reason_holds, acceptance_failed,
  payment_failed, get_deadline_base_for_req_to_pay,
}

any-All :
    {A : Type 0} (f : A → Bool) (Q : A → Type 0) (xs : List A)
    → All Q xs
    → any f xs ≡ true
    → (x : A) × (f x ≡ true) × Q x
any-All f Q [] all h = absurd (ground arith)
any-All f Q (x ∷ xs) (q, all) h = elim (Bool-cases (f x)) [
  | inl here ↦ (x, here, q)
  | inr away ↦ any-All f Q xs all (ground arith)
]

module _ (V : BillEnv) (s : BillValidateActionData) where
  -- What the recourse is for has failed: it was rejected, or the request for it has expired.
  abbrev pub Failed : RecourseReason → Type 0
  Failed RecourseReason.accept =
      (exists_with_op V s.blockchain BillOpCode.reject_to_accept ≡ true)
      ⊎ (b : BillBlock) × (last_with_op V s.blockchain BillOpCode.request_to_accept ≡ some b)
        × (b.timestamp + accept_deadline_seconds < s.timestamp)
  Failed (RecourseReason.pay _ _) =
      (b : BillBlock) × (base : ℕ) × (last_with_op V s.blockchain BillOpCode.request_to_pay
        ≡ some b)
      × (get_deadline_base_for_req_to_pay V b.timestamp s.maturity_date ≡ ok base)
      × ((exists_with_op V s.blockchain BillOpCode.reject_to_pay ≡ true)
          ⊎ base + payment_deadline_seconds < s.timestamp)

  -- The recoursee is an earlier holder of the bill than the signer.
  abbrev pub Recoursable : IdentityPublicData → Type 0
  Recoursable recoursee =
      (bill : BillIssueBlockData) × (e : PastEndorsee) × (get_first_version_bill V s.blockchain
          s.bill_keys
        ≡ ok bill)
      × (e.pay_to_the_order_of.node_id ≡ recoursee.node_id)
      × (recoursee.node_id ≢ s.signer_node_id)
      × IsEarlierHolder V s.blockchain s.bill_keys s.signer_node_id bill e

  past-Recoursable :
      (recoursee : IdentityPublicData) {past : List PastEndorsee}
      → get_past_endorsees_for_bill V s.blockchain s.bill_keys s.signer_node_id ≡ ok past
      → any (λ (h : PastEndorsee). h.pay_to_the_order_of.node_id == recoursee.node_id) past ≡ true
      → Recoursable recoursee
  past-Recoursable recoursee {past} found named =
      let (bill, issued, all, listed, sorted) =
        get_past_endorsees-IsEarlierHolder V s.blockchain s.bill_keys s.signer_node_id found in
      let (e, same, (other, earlier)) =
        any-All (λ (h : PastEndorsee). h.pay_to_the_order_of.node_id == recoursee.node_id)
          (λ (e : PastEndorsee).
            (e.pay_to_the_order_of.node_id ≢ s.signer_node_id)
            × IsEarlierHolder V s.blockchain s.bill_keys s.signer_node_id bill e)
          past all named in
      let here = (eq_iff e.pay_to_the_order_of.node_id recoursee.node_id).0 same in
      (bill, e, issued, here, λ own. other (here ∙ own), earlier)

  acceptance-Failed :
      (request : Option BillBlock)
      → last_with_op V s.blockchain BillOpCode.request_to_accept ≡ request
      → acceptance_failed V s request ≡ ok tt
      → Failed RecourseReason.accept
  unfolding acceptance_failed
  acceptance-Failed none e h = inl (ground arith)
  acceptance-Failed (some b) e h =
      elim (Bool-cases (exists_with_op V s.blockchain BillOpCode.reject_to_accept)) [
        | inl rejected ↦ inl rejected
        | inr not_rejected ↦ inr (
          b,
          e,
          (check_if_deadline_has_passed_iff b.timestamp s.timestamp accept_deadline_seconds).0
              (ground arith),
        )
      ]

  payment-Failed :
      (sum : ℕ) (currency : e_bill.Prelude.String) (request : Option BillBlock)
      → last_with_op V s.blockchain BillOpCode.request_to_pay ≡ request
      → payment_failed V s request ≡ ok tt
      → Failed (RecourseReason.pay sum currency)
  unfolding payment_failed
  payment-Failed sum currency none e h = absurd (ground arith)
  payment-Failed sum currency (some b) e h =
      elim (Result-cases (get_deadline_base_for_req_to_pay V b.timestamp s.maturity_date)) [
        | inl (base, f) ↦
            elim (Bool-cases (exists_with_op V s.blockchain BillOpCode.reject_to_pay)) [
              | inl rejected ↦ (b, base, e, f, inl rejected)
              | inr not_rejected ↦ (
                b,
                base,
                e,
                f,
                inr (
                    (check_if_deadline_has_passed_iff base s.timestamp payment_deadline_seconds).0
                      (ground arith)),
              )
            ]
        | inr failed ↦ absurd (ground arith)
      ]

  reason-Failed :
      (reason : RecourseReason) → recourse_reason_holds V s reason ≡ ok tt → Failed reason
  unfolding recourse_reason_holds
  reason-Failed RecourseReason.accept h =
      acceptance-Failed (last_with_op V s.blockchain BillOpCode.request_to_accept) refl h
  reason-Failed (RecourseReason.pay sum currency) h =
      payment-Failed sum currency (last_with_op V s.blockchain BillOpCode.request_to_pay) refl h

  request_lem :
      (recoursee : IdentityPublicData) (reason : RecourseReason)
      → validate_action V s (BillAction.request_recourse recoursee reason) ≡ ok tt
      → Recoursable recoursee × Failed reason
  unfolding validate_action
  request_lem recoursee reason h =
      let r = get_past_endorsees_for_bill V s.blockchain s.bill_keys s.signer_node_id in
      let (past, e) =
        first_ok (map_err ValidationError.blockchain r)
          (λ (past : List PastEndorsee).
            fail_if
              (not (
                any (λ (h : PastEndorsee). h.pay_to_the_order_of.node_id == recoursee.node_id)
                  past))
              e_bill.Error.recoursee_not_past_holder
            >> recourse_reason_holds V s reason)
          (ground arith) in
      (
        past-Recoursable recoursee (map_err_ok ValidationError.blockchain r e) (ground arith),
        reason-Failed reason (ground arith),
      )

  -- A request for recourse that passes validation is against a party that was a holder before the
  -- signer, or drew the bill, and is not the signer. For a missing acceptance, the acceptance was
  -- rejected, or the last request for it is older than its deadline; for a missing payment, payment
  -- was requested, and was rejected, or the deadline of the last request has passed.
  pub validate-Recoursable :
      {recoursee : IdentityPublicData} {reason : RecourseReason}
      → s.bill_action ≡ BillAction.request_recourse recoursee reason
      → validate V s ≡ ok tt
      → Recoursable recoursee × Failed reason
  unfolding validate
  validate-Recoursable {recoursee} {reason} e h = request_lem recoursee reason (ground arith)
