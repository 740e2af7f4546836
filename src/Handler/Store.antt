-- ===== src/Handler/Store.antt =====
-- What the handler reads and writes: the bill chain table of
-- crates/bcr-ebill-persistence/src/db/bill_chain.rs, and of db/bill.rs the keys, the paid bills and
-- the cache. The database answers every query; a query's own checks are in the operations.
use e_bill.Prelude.{
  true, ◌+◌, String, Bool, false, not, ◌&&◌, Option, none, some, List, [], ◌∷◌, ◌++◌, Result, ok,
  err, if◌then◌else◌, ◌==◌, eqb, last,
}
use e_bill.Error.{BlockchainError}
use e_bill.Blockchain.{verify, validate_hash, validate_with_previous}
use e_bill.Bill.Data.{BillBlock, BillKeys}
use e_bill.Bill.Env.{BillEnv}
use e_bill.Bill.Block.{bill_block}
use e_bill.Bill.Chain.{BillBlockchain, new_from_blocks}

-- `rows` are the blocks with a bill id, by ascending block id; `cached` says which bills have a
-- calculated result in the cache.
pub record Store : Type 0 where
  pub rows : String → List BillBlock
  pub keys : String → Option BillKeys
  pub is_paid : String → Bool
  pub cached : String → Bool

abbrev pub update : {A : Type 0} → (String → A) → String → A → String → A
update f k v j = if k == j then v else f j

pub data StoreError : Type 0 where
  add_bill_block insert_failed no_such_entity blockchain : StoreError

module _ (V : BillEnv) where
  open V use {platform}

  -- The transaction that creates a follow-up block: it looks at the rows of the block's own bill id.
  unfoldable pub create_next : Option BillBlock → BillBlock → Store → Result StoreError Unit × Store
  create_next none block st = (err insert_failed, st)
  create_next (some latest) block st =
      if eqb (latest.id + 1) block.id && (latest.hash == block.previous_hash)
      then (
        ok tt,
        record st { rows = update st.rows block.bill_id (st.rows block.bill_id ++ block ∷ []) },
      )
      else (err insert_failed, st)

  -- The transaction that creates a first block.
  unfoldable pub create_first : List BillBlock → BillBlock → Store → Result StoreError Unit × Store
  create_first [] block st =
      if eqb block.id 1
      then (ok tt, record st { rows = update st.rows block.bill_id (block ∷ []) })
      else (err insert_failed, st)
  create_first (b ∷ bs) block st = (err insert_failed, st)

  unfoldable pub add_block_after :
      Option BillBlock → BillBlock → Store → Result StoreError Unit × Store
  unfolding create_next create_first
  add_block_after none block st =
      if eqb block.id 1
        && verify platform (bill_block V) block
        && validate_hash platform (bill_block V) block
      then create_first (st.rows block.bill_id) block st
      else (err add_bill_block, st)
  add_block_after (some latest_block) block st =
      if not (validate_with_previous platform (bill_block V) block latest_block)
      then (err add_bill_block, st)
      else create_next (last (st.rows block.bill_id)) block st

  unfoldable pub add_block : String → BillBlock → Store → Result StoreError Unit × Store
  unfolding add_block_after
  add_block id block st = add_block_after (last (st.rows id)) block st

  unfoldable pub get_chain : String → Store → Result BlockchainError BillBlockchain
  get_chain id st = new_from_blocks V (st.rows id)

unfoldable pub get_keys : String → Store → Result StoreError BillKeys
get_keys id st = elim (st.keys id) [ none ↦ err no_such_entity | some k ↦ ok k ]

-- `create` fails where the record is there already.
unfoldable pub save_keys : String → BillKeys → Store → Result StoreError Unit × Store
save_keys id key_pair st = elim (st.keys id) [
  | none ↦ (ok tt, record st { keys = update st.keys id (some key_pair) })
  | some k ↦ (err insert_failed, st)
]

unfoldable pub invalidate_bill_in_cache : String → Store → Store
invalidate_bill_in_cache id st = record st { cached = update st.cached id false }

-- The table of paid bills also keeps the address, which nothing reads.
unfoldable pub set_to_paid : String → String → Store → Store
set_to_paid bill_id payment_address st = record st { is_paid = update st.is_paid bill_id true }
