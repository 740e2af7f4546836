-- ===== src/Bill/Payments.antt =====
-- core/src/blockchain/bill/chain.rs: the past sell and recourse payments of a node.
use e_bill.Prelude.{
  ℕ, ◌+◌, ◌%◌, String, not, Option, none, some, List, [], ◌∷◌, ◌++◌, Result, ok, err, ◌>>=◌,
  if◌then◌else◌, ◌==◌, u64_mod,
}
use e_bill.Error.{BlockchainError, blockchain_invalid}
use e_bill.Util.Date.{
  check_if_deadline_has_passed, payment_deadline_seconds, recourse_deadline_seconds,
}
use e_bill.Bill.Data.{BillBlock, BillOpCode, BillKeys, DataType, PaymentInfo, RecoursePaymentInfo}
use e_bill.Bill.Env.{BillEnv}
use e_bill.Bill.Block.{get_decrypted_block_bytes}
use e_bill.Bill.Chain.{BillBlockchain, payment_info, recourse_payment_info}

pub data PastPaymentStatus : Type 0 where
  paid rejected expired : ℕ → PastPaymentStatus

-- What an op code is to a pairing loop: it opens a request, answers one, or neither.
pub data Part : Type 0 where
  opens answers other : Part

unfoldable pub sell_part : BillOpCode → Part
sell_part BillOpCode.offer_to_sell = opens
sell_part BillOpCode.reject_to_buy = answers
sell_part BillOpCode.sell = answers
sell_part _ = other

unfoldable pub recourse_part : BillOpCode → Part
recourse_part BillOpCode.request_recourse = opens
recourse_part BillOpCode.reject_to_pay_recourse = answers
recourse_part BillOpCode.recourse = answers
recourse_part _ = other

abbrev pub Pairs : Type 0
Pairs = List (BillBlock × Option BillBlock)

-- One block, with the request that is open and the pairs so far.
unfoldable pub pair_step :
    Part → BillBlock → Option BillBlock → Pairs → Result BlockchainError (Option BillBlock × Pairs)
pair_step opens block (some current) pairs = ok (some block, pairs ++ (current, none) ∷ [])
pair_step opens block none pairs = ok (some block, pairs)
pair_step answers block (some current) pairs = ok (none, pairs ++ (current, some block) ∷ [])
pair_step answers block none pairs = err blockchain_invalid
pair_step other block current pairs = ok (current, pairs)

-- The loop over the blocks, with the request left over at the end pushed alone.
unfoldable pub pair_blocks :
    (BillOpCode → Part) → List BillBlock → Option BillBlock → Pairs → Result BlockchainError Pairs
unfolding pair_step
pair_blocks part [] (some leftover) pairs = ok (pairs ++ (leftover, none) ∷ [])
pair_blocks part [] none pairs = ok pairs
pair_blocks part (block ∷ blocks) current pairs =
    pair_step (part block.op_code) block current pairs >>= λ (current', pairs').
    pair_blocks part blocks current' pairs'

-- The status of a request that was answered; `none` where nothing is pushed.
unfoldable pub sell_answer : BillOpCode → BillBlock → Option PastPaymentStatus
sell_answer BillOpCode.reject_to_buy b = some (rejected b.timestamp)
sell_answer BillOpCode.sell b = some (paid b.timestamp)
sell_answer _ b = none

unfoldable pub recourse_answer : BillOpCode → BillBlock → Option PastPaymentStatus
recourse_answer BillOpCode.reject_to_pay_recourse b = some (rejected b.timestamp)
recourse_answer BillOpCode.recourse b = some (paid b.timestamp)
recourse_answer _ b = none

-- Both functions add the payment deadline for the time of an expired request.
unfoldable pub status_of :
    (BillOpCode → BillBlock → Option PastPaymentStatus)
    → ℕ
    → ℕ
    → BillBlock
    → Option BillBlock
    → Option PastPaymentStatus
status_of answer_status now deadline request (some answer) = answer_status answer.op_code answer
status_of answer_status now deadline request none =
    if check_if_deadline_has_passed request.timestamp now deadline
    then some (expired ((request.timestamp + payment_deadline_seconds) % u64_mod))
    else none

abbrev pub push_status :
    {A : Type 0}
    → A
    → ℕ
    → Option PastPaymentStatus
    → List (A × PastPaymentStatus × ℕ)
    → List (A × PastPaymentStatus × ℕ)
push_status info time none rest = rest
push_status info time (some s) rest = (info, s, time) ∷ rest

module _ (V : BillEnv) where
  unfoldable pub sell_results :
      Pairs
      → BillKeys
      → String
      → ℕ
      → Result BlockchainError (List (PaymentInfo × PastPaymentStatus × ℕ))
  unfolding status_of sell_answer
  sell_results [] bill_keys node_id now = ok []
  sell_results ((offer, answer) ∷ pairs) bill_keys node_id now = do
    d ← get_decrypted_block_bytes V DataType.offer_to_sell offer bill_keys
    rest ← sell_results pairs bill_keys node_id now
    ok (
        if not (node_id == d.seller.node_id)
        then rest
        else push_status (payment_info d) offer.timestamp
            (status_of sell_answer now payment_deadline_seconds offer answer) rest)

  unfoldable pub get_past_sell_payments_for_node_id :
      BillBlockchain
      → BillKeys
      → String
      → ℕ
      → Result BlockchainError (List (PaymentInfo × PastPaymentStatus × ℕ))
  unfolding pair_blocks sell_part sell_results
  get_past_sell_payments_for_node_id blocks bill_keys node_id timestamp = do
    pairs ← pair_blocks sell_part blocks none []
    sell_results pairs bill_keys node_id timestamp

  unfoldable pub recourse_results :
      Pairs
      → BillKeys
      → String
      → ℕ
      → Result BlockchainError (List (RecoursePaymentInfo × PastPaymentStatus × ℕ))
  unfolding status_of recourse_answer
  recourse_results [] bill_keys node_id now = ok []
  recourse_results ((request, answer) ∷ pairs) bill_keys node_id now = do
    d ← get_decrypted_block_bytes V DataType.request_recourse request bill_keys
    rest ← recourse_results pairs bill_keys node_id now
    ok (
        if not (node_id == d.recourser.node_id)
        then rest
        else push_status (recourse_payment_info d) request.timestamp
            (status_of recourse_answer now recourse_deadline_seconds request answer) rest)

  unfoldable pub get_past_recourse_payments_for_node_id :
      BillBlockchain
      → BillKeys
      → String
      → ℕ
      → Result BlockchainError (List (RecoursePaymentInfo × PastPaymentStatus × ℕ))
  unfolding pair_blocks recourse_part recourse_results
  get_past_recourse_payments_for_node_id blocks bill_keys node_id timestamp = do
    pairs ← pair_blocks recourse_part blocks none []
    recourse_results pairs bill_keys node_id timestamp
