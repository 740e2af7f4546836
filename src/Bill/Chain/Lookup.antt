-- ===== src/Bill/Chain/Lookup.antt =====
-- The lookups by op code on a bill chain (core/src/blockchain/bill/chain.rs), in terms of where the
-- blocks stand.
use e_bill.Prelude.{
  ℕ, zero, suc, ◌≡◌, ap, Bool, true, List, [], ◌∷◌, ◌++◌, some, arith, last, any, get_elem?,
}
use e_bill.Blockchain.{block_with_operation_code_exists}
use e_bill.Blockchain.Lookup.{get_last_version_block_iff}
use e_bill.Bill.Data.{BillBlock, BillOpCode, op_eq, op_eq_refl}
use e_bill.Bill.Env.{BillEnv}
use e_bill.Bill.Block.{bill_block}
use e_bill.Bill.Chain.{last_with_op, exists_with_op}

last-split :
    {A : Type 0} (xs : List A) {b : A}
    → last xs ≡ some b
    → (before : List A) × (xs ≡ before ++ b ∷ [])
last-split [] h = absurd (ground arith)
last-split (x ∷ []) {b} h = ([], ground arith)
last-split (x ∷ y ∷ ys) {b} h =
    let (before, e) = last-split (y ∷ ys) {b = b} h in (x ∷ before, ap (λ l. x ∷ l) e)

any-get_elem? :
    {A : Type 0} (p : A → Bool) (xs : List A) (i : ℕ) {a : A}
    → get_elem? xs i ≡ some a
    → p a ≡ true
    → any p xs ≡ true
any-get_elem? p [] i h q = absurd (ground arith)
any-get_elem? p (x ∷ xs) zero h q = ground arith
any-get_elem? p (x ∷ xs) (suc i) h q = ground (arith, any-get_elem? p xs i h q)

module _ (V : BillEnv) (blocks : List BillBlock) where
  -- A block with the op code anywhere in the chain makes the existence test true.
  pub exists_with_op-get_elem? :
      (i : ℕ) {b : BillBlock} (op : BillOpCode)
      → get_elem? blocks i ≡ some b
      → b.op_code ≡ op
      → exists_with_op V blocks op ≡ true
  unfolding exists_with_op block_with_operation_code_exists
  exists_with_op-get_elem? i {b} op h e =
      any-get_elem? (λ c. op_eq c.op_code op) blocks i h (ground (arith, op_eq_refl op))

  -- The latest block is found by its own op code.
  pub last_with_op-last :
      {b : BillBlock} (op : BillOpCode)
      → last blocks ≡ some b
      → b.op_code ≡ op
      → last_with_op V blocks op ≡ some b
  unfolding last_with_op
  last_with_op-last {b} op h e =
      let (before, split) = last-split blocks h in
      (get_last_version_block_iff V.platform (bill_block V) op blocks b).1 (record {
        before = before;
        after = [];
        split = split;
        passes = ground (arith, op_eq_refl op);
        none_after = tt;
      })
