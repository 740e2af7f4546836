-- ===== src/Bill/Chain/Parties/Unendorsed.antt =====
-- The parties of a bill that never changed its holder (core/src/blockchain/bill/chain.rs).
use e_bill.Prelude.{
  ◌≡◌, refl, ap, subst, true, false, none, List, [], ◌∷◌, ◌++◌, arith, ok, All, Option-cases, inl,
  inr,
}
use e_bill.Blockchain.Lookup.{get_last_version_block_iff}
use e_bill.Bill.Data.{
  BillBlock, BillOpCode, BillKeys, DataType, Data, BillIdentityBlockData, BillIssueBlockData,
  op_eq-eq,
}
use e_bill.Bill.Env.{BillEnv}
use e_bill.Bill.Block.{bill_block}
use e_bill.Bill.Chain.{BillBlockchain, is_endorsement, last_with_op, last_party, get_bill_parties}

All-middle :
    {B : Type 0} (Q : B → Type 0) (before : List B) (b : B) (after : List B)
    → All Q (before ++ b ∷ after)
    → Q b
All-middle Q [] b after h = h.0
All-middle Q (x ∷ before) b after h = All-middle Q before b after h.1

module _ (V : BillEnv) (blocks : BillBlockchain) (keys : BillKeys)
    (unendorsed : All (λ (c : BillBlock). is_endorsement c.op_code ≡ false) blocks) where
  no_block : (op : BillOpCode) → is_endorsement op ≡ true → last_with_op V blocks op ≡ none
  unfolding last_with_op
  no_block op changes = elim (Option-cases (last_with_op V blocks op)) [
    | inl e ↦ e
    | inr (c, e) ↦
        let w = (get_last_version_block_iff V.platform (bill_block V) op blocks c).0 e in
        let still =
          All-middle (λ (d : BillBlock). is_endorsement d.op_code ≡ false) w.before c w.after
            (subst (λ l. All (λ (d : BillBlock). is_endorsement d.op_code ≡ false) l) w.split
              unendorsed) in
        let same : is_endorsement c.op_code ≡ is_endorsement op =
          ap is_endorsement (op_eq-eq c.op_code op w.passes) in
        absurd (ground arith)
  ]

  no_party :
      (op : BillOpCode) (t : DataType) (get : Data t → BillIdentityBlockData)
      → is_endorsement op ≡ true
      → last_party V op t get blocks keys ≡ ok none
  unfolding last_party
  no_party op t get changes = ground (arith, no_block op changes)

  -- On a chain without a block of the kinds endorse, mint, sell and recourse, `get_bill_parties`
  -- answers the drawee, the drawer and the payee of the bill, and no endorsee.
  pub get_bill_parties-unendorsed :
      (first : BillIssueBlockData)
      → get_bill_parties V blocks keys first
        ≡ ok (record {
          drawee = first.drawee;
          drawer = first.drawer;
          payee = first.payee;
          endorsee = none;
        })
  unfolding get_bill_parties is_endorsement
  get_bill_parties-unendorsed first = ground (
    arith,
    no_party BillOpCode.endorse DataType.endorse (λ d. d.endorsee) refl,
    no_party BillOpCode.mint DataType.mint (λ d. d.endorsee) refl,
    no_party BillOpCode.sell DataType.sell (λ d. d.buyer) refl,
    no_party BillOpCode.recourse DataType.recourse (λ d. d.recoursee) refl,
  )
