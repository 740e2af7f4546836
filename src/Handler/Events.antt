-- ===== src/Handler/Events.antt =====
-- What a received event leaves in the store: `process_chain_data` for a bill that is known.
use e_bill.Prelude.{
  ◌≡◌, sym, subst, String, Bool, true, false, Option, some, List, [], ◌∷◌, ◌++◌, arith, Result, ok,
  err, panic, last, last_from,
}
use e_bill.Blockchain.{verify, validate_hash}
use e_bill.Blockchain.Links.{
  Follows, IsValid, is_chain_valid-IsValid, IsValid-is_chain_valid, FollowsAll-append,
}
use e_bill.Bill.Data.{BillBlock, BillKeys, BillIssueBlockData}
use e_bill.Bill.Env.{BillEnv}
use e_bill.Bill.Block.{bill_block}
use e_bill.Bill.Chain.{BillBlockchain, new_from_blocks, get_first_version_bill}
use e_bill.Handler.Store
use e_bill.Handler.Store.{Store}
use e_bill.Handler.Exec.{Error, Exec, persistence, continue}
use e_bill.Handler.Chain.{
  add_blocks, add_bill_blocks, process_chain_data, invalidate_cache_for_bill,
}
use e_bill.Handler.Safety.{Admissible, Grows, Appended, AllFor, add_blocks-Appended, same, grown}

module _ (V : BillEnv) where
  -- A chain as it was read: not empty, its first block's hash and signature right, and valid.
  abbrev pub IsReadable : BillBlockchain → Type 0
  IsReadable [] = ⊥
  IsReadable (b ∷ bs) =
      (verify V.platform (bill_block V) b ≡ true)
      × (validate_hash V.platform (bill_block V) b ≡ true)
      × IsValid V.platform (bill_block V) (b ∷ bs)

  -- `new_from_blocks` accepts exactly the readable lists of blocks, and changes nothing.
  pub new_from_blocks-IsReadable :
      (blocks : BillBlockchain) {chain : BillBlockchain}
      → new_from_blocks V blocks ≡ ok chain
      → IsReadable blocks × (chain ≡ blocks)
  unfolding new_from_blocks
  new_from_blocks-IsReadable [] h = absurd (ground arith)
  new_from_blocks-IsReadable (b ∷ bs) h =
      ground (arith, is_chain_valid-IsValid V.platform (bill_block V) (b ∷ bs))

  pub IsReadable-new_from_blocks :
      (blocks : BillBlockchain) → IsReadable blocks → new_from_blocks V blocks ≡ ok blocks
  unfolding new_from_blocks
  IsReadable-new_from_blocks [] h = absurd h
  IsReadable-new_from_blocks (b ∷ bs) (v, c, h) =
      ground (arith, IsValid-is_chain_valid V.platform (bill_block V) (b ∷ bs) h)

  last-snoc :
      (b : BillBlock) (bs : BillBlockchain) {l : BillBlock}
      → last (b ∷ bs) ≡ some l
      → last_from b bs ≡ l
  last-snoc b bs h = ground arith

  Admissible-IsReadable :
      (first : BillIssueBlockData) (keys : BillKeys) (paid : Bool) (chain : BillBlockchain)
      (block : BillBlock)
      → Admissible V first keys paid chain block
      → IsReadable chain
      → IsReadable (chain ++ block ∷ [])
  Admissible-IsReadable first keys paid [] block adm h = absurd h
  Admissible-IsReadable first keys paid (b ∷ bs) block adm (v, c, h) =
      let fits =
        subst (λ l. Follows V.platform (bill_block V) l block)
          (sym (last-snoc b bs {l = adm.latest} adm.latest_is_last)) adm.follows in
      (v, c, FollowsAll-append V.platform (bill_block V) b bs (block ∷ []) h (fits, tt))

  Grows-IsReadable :
      (first : BillIssueBlockData) (keys : BillKeys) (paid : Bool) {a b : BillBlockchain}
      → Grows V first keys paid a b
      → IsReadable a
      → IsReadable b
  Grows-IsReadable first keys paid same h = h
  Grows-IsReadable first keys paid (grown {middle} block g adm) h =
      Admissible-IsReadable first keys paid middle block adm (Grows-IsReadable first keys paid g h)

  module _ (bill_id : String) (blocks : List BillBlock) (sent : Option BillKeys) (st : Store)
      (chain : BillBlockchain) (keys : BillKeys) (first : BillIssueBlockData)
      (known : Store.get_chain V bill_id st ≡ ok chain) (has_keys : st.keys bill_id ≡ some keys)
      (issued : get_first_version_bill V chain keys ≡ ok first) (own : AllFor bill_id blocks) where
    stored : chain ≡ st.rows bill_id
    unfolding Store.get_chain
    stored = (new_from_blocks-IsReadable (st.rows bill_id) known).1

    invalidated :
        (r : Result Error Bool) (mid : Store)
        → Appended V first keys (st.is_paid bill_id) bill_id st mid
        → Appended V first keys
            (st.is_paid bill_id)
            bill_id
            st
            (continue r
              (λ added. e_bill.Handler.Exec.when added (invalidate_cache_for_bill V bill_id))
              mid).1
    unfolding invalidate_cache_for_bill Store.invalidate_bill_in_cache
    invalidated (ok true) mid h = record {
      growth = h.growth;
      others = h.others;
      same_keys = h.same_keys;
      same_paid = h.same_paid;
    }
    invalidated (ok false) mid h = h
    invalidated (err e) mid h = h
    invalidated panic mid h = h

    pub process_chain_data_lem : process_chain_data V bill_id blocks sent st ≡ (
        let (r, mid) = add_blocks V bill_id first keys (st.is_paid bill_id) blocks chain false st in
        continue r
          (λ added. e_bill.Handler.Exec.when added (invalidate_cache_for_bill V bill_id))
          mid)
    unfolding process_chain_data add_bill_blocks Store.get_keys
    process_chain_data_lem = ground arith

    -- For a bill that is known, with its keys, an event whose blocks carry the bill's id only
    -- appends blocks to the bill's chain, whether the event ends well or in an error. Each of them
    -- fits the block before it, is signed by the party that its data names, and stands for an
    -- action that was allowed to that party at that point. The other bills, the keys and the paid
    -- bills stay as they were.
    pub process_chain_data-Appended :
        Appended V first keys
          (st.is_paid bill_id)
          bill_id
          st
          (process_chain_data V bill_id blocks sent st).1
    process_chain_data-Appended =
        let loop = add_blocks V bill_id first keys (st.is_paid bill_id) blocks chain false st in
        subst (λ m. Appended V first keys (st.is_paid bill_id) bill_id st m.1)
          (sym process_chain_data_lem)
          (invalidated loop.0 loop.1 (
            add_blocks-Appended V first keys (st.is_paid bill_id) bill_id blocks chain false st own
              (sym stored)))

    -- After such an event the bill's chain can be read as before: it is the stored rows, and valid.
    pub process_chain_data-get_chain :
        let st' = (process_chain_data V bill_id blocks sent st).1 in
        Store.get_chain V bill_id st' ≡ ok (st'.rows bill_id)
    unfolding Store.get_chain
    process_chain_data-get_chain =
        let st' = (process_chain_data V bill_id blocks sent st).1 in
        IsReadable-new_from_blocks (st'.rows bill_id) (
          Grows-IsReadable first keys (st.is_paid bill_id) process_chain_data-Appended.growth
            (new_from_blocks-IsReadable (st.rows bill_id) known).0)
