-- ===== src/Bill/Signer.antt =====
-- core/src/blockchain/bill/block.rs: `verify_and_get_signer`, which checks that a block's data is
-- valid and was signed by the party that it names, and says which action the block stands for.
use e_bill.Prelude.{
  ℕ, String, Bool, false, not, Option, none, some, List, [], ◌∷◌, Result, ok, ◌>>=◌, map_err,
  fail_if,
}
use e_bill.Error.{BlockchainError, block_data_invalid, block_signature_does_not_match_signer}
use e_bill.Util.Crypto
use e_bill.Util.Crypto.{combine_pub_keys}
use e_bill.Bill.Data
use e_bill.Bill.Data.{
  BillBlock, BillOpCode, BillKeys, BillAction, DataType, Data, BillSignatoryBlockData,
  RecourseReason, to_public_data,
}
use e_bill.Bill.Env.{BillEnv}
use e_bill.Bill.Validate.{validate_data}
use e_bill.Bill.Block.{get_decrypted_block_bytes}

-- The signer, the signatory and the action that a block's data names.
abbrev pub Signed : Type 0
Signed = String × Option String × Option BillAction

abbrev pub signatory_id : Option BillSignatoryBlockData → Option String
signatory_id none = none
signatory_id (some s) = some s.node_id

abbrev pub reason_of : Data.BillRecourseReasonBlockData → ℕ → String → RecourseReason
reason_of Data.BillRecourseReasonBlockData.pay sum currency = RecourseReason.pay sum currency
reason_of Data.BillRecourseReasonBlockData.accept sum currency = RecourseReason.accept

-- The type that the data of a block with this op code has.
abbrev pub data_type : BillOpCode → DataType
data_type BillOpCode.issue = DataType.issue
data_type BillOpCode.endorse = DataType.endorse
data_type BillOpCode.mint = DataType.mint
data_type BillOpCode.request_to_accept = DataType.request_to_accept
data_type BillOpCode.accept = DataType.accept
data_type BillOpCode.request_to_pay = DataType.request_to_pay
data_type BillOpCode.offer_to_sell = DataType.offer_to_sell
data_type BillOpCode.sell = DataType.sell
data_type BillOpCode.reject_to_accept = DataType.reject
data_type BillOpCode.reject_to_buy = DataType.reject
data_type BillOpCode.reject_to_pay = DataType.reject
data_type BillOpCode.reject_to_pay_recourse = DataType.reject
data_type BillOpCode.request_recourse = DataType.request_recourse
data_type BillOpCode.recourse = DataType.recourse

unfoldable pub signed_by : (op : BillOpCode) → Data (data_type op) → Signed
signed_by BillOpCode.issue d = (d.drawer.node_id, signatory_id d.signatory, none)
signed_by BillOpCode.endorse d = (
  d.endorser.node_id,
  signatory_id d.signatory,
  some (BillAction.endorse (to_public_data d.endorsee)),
)
signed_by BillOpCode.mint d = (
  d.endorser.node_id,
  signatory_id d.signatory,
  some (BillAction.mint (to_public_data d.endorsee) d.sum d.currency),
)
signed_by BillOpCode.request_to_accept d =
    (d.requester.node_id, signatory_id d.signatory, some BillAction.request_acceptance)
signed_by BillOpCode.accept d =
    (d.accepter.node_id, signatory_id d.signatory, some BillAction.accept)
signed_by BillOpCode.request_to_pay d =
    (d.requester.node_id, signatory_id d.signatory, some (BillAction.request_to_pay d.currency))
signed_by BillOpCode.offer_to_sell d = (
  d.seller.node_id,
  signatory_id d.signatory,
  some (BillAction.offer_to_sell (to_public_data d.buyer) d.sum d.currency),
)
signed_by BillOpCode.sell d = (
  d.seller.node_id,
  signatory_id d.signatory,
  some (BillAction.sell (to_public_data d.buyer) d.sum d.currency d.payment_address),
)
signed_by BillOpCode.reject_to_accept d =
    (d.rejecter.node_id, signatory_id d.signatory, some BillAction.reject_acceptance)
signed_by BillOpCode.reject_to_buy d =
    (d.rejecter.node_id, signatory_id d.signatory, some BillAction.reject_buying)
signed_by BillOpCode.reject_to_pay d =
    (d.rejecter.node_id, signatory_id d.signatory, some BillAction.reject_payment)
signed_by BillOpCode.reject_to_pay_recourse d =
    (d.rejecter.node_id, signatory_id d.signatory, some BillAction.reject_payment_for_recourse)
signed_by BillOpCode.request_recourse d = (
  d.recourser.node_id,
  signatory_id d.signatory,
  some (
      BillAction.request_recourse (to_public_data d.recoursee)
        (reason_of d.recourse_reason d.sum d.currency)),
)
signed_by BillOpCode.recourse d = (
  d.recourser.node_id,
  signatory_id d.signatory,
  some (
      BillAction.recourse (to_public_data d.recoursee) d.sum d.currency
        (reason_of d.recourse_reason d.sum d.currency)),
)

module _ (V : BillEnv) where
  open V use {platform}

  -- The public keys that must have signed: signatory, signer, bill.
  unfoldable pub verify_keys : String → Option String → BillKeys → List String
  verify_keys signer none bill_keys = signer ∷ bill_keys.public_key ∷ []
  verify_keys signer (some signatory) bill_keys = signatory ∷ signer ∷ bill_keys.public_key ∷ []

  unfoldable pub verify_signer : BillBlock → String → Option String → BillKeys → Bool
  unfolding verify_keys
  verify_signer block signer signatory bill_keys =
      elim (combine_pub_keys platform (verify_keys signer signatory bill_keys)) [
        | ok aggregated_public_key ↦
            elim (Crypto.verify platform block.hash block.signature aggregated_public_key) [
              | ok res ↦ res
              | _ ↦ false
            ]
        | _ ↦ false
      ]

  unfoldable pub verify_and_get_signer :
      BillBlock → BillKeys → Result BlockchainError (String × Option BillAction)
  verify_and_get_signer block bill_keys =
      get_decrypted_block_bytes V (data_type block.op_code) block bill_keys >>= λ payload.
      map_err block_data_invalid (validate_data platform (data_type block.op_code) payload) >>= λ _.
      let (signer, signatory, bill_action) = signed_by block.op_code payload in
      fail_if (not (verify_signer block signer signatory bill_keys))
        block_signature_does_not_match_signer
      >>= λ _. ok (signer, bill_action)
