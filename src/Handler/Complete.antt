-- ===== src/Handler/Complete.antt =====
-- A block that may follow a bill's chain is taken in by the handler.
use e_bill.Prelude.{
  ◌+◌, ◌<◌, ◌≡◌, ◌∙◌, refl, sym, ap, String, true, false, some, List, [], ◌∷◌, ◌++◌, arith, ok,
  Bool, last, u64_mod, Bool-cases, inl, inr, eq_refl, Option,
}
use e_bill.Blockchain.{get_latest_block, try_add_block}
use e_bill.Blockchain.Links.{Follows, Follows-validate_with_previous}
use e_bill.Bill.Data.{BillBlock, BillKeys, BillOpCode, BillIssueBlockData, op_eq, op_eq-eq}
use e_bill.Bill.Env.{BillEnv}
use e_bill.Bill.Block.{bill_block}
use e_bill.Bill.Chain.{BillBlockchain, get_first_version_bill}
use e_bill.Handler.Store
use e_bill.Handler.Store.{Store}
use e_bill.Handler.Chain.{
  check_block, save_block, validate_and_save_block, add_blocks, process_chain_data,
  invalidate_cache_for_bill,
}
use e_bill.Handler.Safety.{Admissible, AllFor, with_block, rows-with_block}
use e_bill.Handler.Events.{process_chain_data_lem, new_from_blocks-IsReadable}

module _ (V : BillEnv) (first : BillIssueBlockData) (keys : BillKeys) (paid : Bool) where
  check_block-passes :
      (chain : BillBlockchain) (block : BillBlock) (st : Store)
      → Admissible V first keys paid chain block
      → check_block V chain first keys block paid st ≡ (ok tt, st)
  unfolding check_block
  check_block-passes chain block st adm = ground (arith, adm.signed, adm.parties_known, adm.allowed)

  save_block-stores :
      (bill_id : String) (block : BillBlock) (st : Store) (latest : BillBlock)
      → block.bill_id ≡ bill_id
      → last (st.rows bill_id) ≡ some latest
      → Follows V.platform (bill_block V) latest block
      → latest.id + 1 < u64_mod
      → save_block V bill_id block st ≡ (ok tt, with_block V first keys paid bill_id block st)
  unfolding save_block Store.add_block Store.add_block_after Store.create_next
  save_block-stores bill_id block st latest own is_last f small = ground (
    arith,
    Follows-validate_with_previous V.platform (bill_block V) latest block f,
    f.ids,
    f.hashes,
    eq_refl latest.hash,
    eq_refl bill_id,
  )

  -- A block that may follow the stored chain is stored, and the chain goes on with it.
  pub validate_and_save_block-stores :
      (bill_id : String) (chain : BillBlockchain) (block : BillBlock) (st : Store)
      → block.bill_id ≡ bill_id
      → st.rows bill_id ≡ chain
      → (adm : Admissible V first keys paid chain block) → adm.latest.id + 1 < u64_mod
      → validate_and_save_block V bill_id chain first keys block paid st
        ≡ (ok (true, chain ++ block ∷ []), with_block V first keys paid bill_id block st)
  unfolding validate_and_save_block get_latest_block try_add_block
  validate_and_save_block-stores bill_id chain block st own is_chain adm small =
      elim (Bool-cases (op_eq block.op_code BillOpCode.issue)) [
        | inl issue ↦ absurd (adm.not_issue (op_eq-eq block.op_code BillOpCode.issue issue))
        | inr other ↦ ground (
          arith,
          adm.latest_is_last,
          adm.follows.ids,
          Follows-validate_with_previous V.platform (bill_block V) adm.latest block adm.follows,
          check_block-passes chain block st adm,
          save_block-stores bill_id block st adm.latest own (ap last is_chain ∙ adm.latest_is_last)
              adm.follows small,
        )
      ]

  -- Blocks that may follow a chain one after the other, within the 64-bit range.
  abbrev pub Extends : BillBlockchain → List BillBlock → Type 0
  Extends chain [] = Unit
  Extends chain (block ∷ blocks) =
      ((adm : Admissible V first keys paid chain block) × (adm.latest.id + 1 < u64_mod))
      × Extends (chain ++ block ∷ []) blocks

  -- Whether the last block was added: all are.
  abbrev all_added : Bool → List BillBlock → Bool
  all_added added [] = added
  all_added added (block ∷ blocks) = all_added true blocks

  all_added-true : (blocks : List BillBlock) → all_added true blocks ≡ true
  all_added-true [] = refl
  all_added-true (b ∷ bs) = all_added-true bs

  append_nil : (chain : BillBlockchain) → chain ++ [] ≡ chain
  append_nil [] = refl
  append_nil (b ∷ bs) = ap (λ l. b ∷ l) (append_nil bs)

  concat_assoc :
      (chain : BillBlockchain) (block : BillBlock) (blocks : List BillBlock)
      → (chain ++ block ∷ []) ++ blocks ≡ chain ++ block ∷ blocks
  concat_assoc [] block blocks = refl
  concat_assoc (b ∷ bs) block blocks = ap (λ l. b ∷ l) (concat_assoc bs block blocks)

  add_blocks-stores :
      (bill_id : String) (blocks : List BillBlock) (chain : BillBlockchain) (added : Bool)
      (st : Store)
      → AllFor bill_id blocks
      → st.rows bill_id ≡ chain
      → Extends chain blocks
      → (st' : Store) × (add_blocks V bill_id first keys paid blocks chain added st
          ≡ (ok (all_added added blocks), st'))
        × (st'.rows bill_id ≡ chain ++ blocks)
  unfolding add_blocks
  add_blocks-stores bill_id [] chain added st own e x = (st, refl, ground (arith, append_nil chain))
  add_blocks-stores bill_id (block ∷ blocks) chain added st (own, owns) e ((adm, small), x) =
      let (st', done, rows) =
        add_blocks-stores bill_id blocks (chain ++ block ∷ []) true
          (with_block V first keys paid bill_id block st) owns
          (rows-with_block V first keys paid bill_id block st ∙ ap (λ l. l ++ block ∷ []) e) x in
      (
        st',
        ground (arith, validate_and_save_block-stores bill_id chain block st own e adm small, done),
        rows ∙ concat_assoc chain block blocks,
      )

module _ (V : BillEnv) (bill_id : String) (block : BillBlock) (blocks : List BillBlock)
    (sent : Option BillKeys) (st : Store) (chain : BillBlockchain) (keys : BillKeys)
    (first : BillIssueBlockData) where
  -- For a bill that is known, with its keys, an event whose blocks may follow the stored chain one
  -- after the other, within the 64-bit range, ends well: all its blocks are stored behind the
  -- chain, in their order, and the cached result of the bill is dropped.
  pub process_chain_data-stores :
      Store.get_chain V bill_id st ≡ ok chain
      → st.keys bill_id ≡ some keys
      → get_first_version_bill V chain keys ≡ ok first
      → AllFor bill_id (block ∷ blocks)
      → Extends V first keys (st.is_paid bill_id) chain (block ∷ blocks)
      → (st' : Store) × (process_chain_data V bill_id (block ∷ blocks) sent st ≡ (ok tt, st'))
        × (st'.rows bill_id ≡ chain ++ block ∷ blocks)
        × (st'.cached bill_id ≡ false)
  unfolding invalidate_cache_for_bill Store.invalidate_bill_in_cache Store.get_chain
  process_chain_data-stores known has_keys issued own x =
      let (mid, done, rows) =
        add_blocks-stores V first keys (st.is_paid bill_id) bill_id (block ∷ blocks) chain false st
          own (sym (new_from_blocks-IsReadable V (st.rows bill_id) {chain = chain} known).1) x in
      (
        Store.invalidate_bill_in_cache bill_id mid,
        process_chain_data_lem V bill_id (block ∷ blocks) sent st chain keys first known has_keys
              issued own
            ∙ ground (arith, done, all_added-true V first keys (st.is_paid bill_id) blocks),
        rows,
        ground (arith, eq_refl bill_id),
      )
