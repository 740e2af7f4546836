-- ===== src/Ledger/Table.antt =====
-- crates/bcr-ebill-persistence/src/db/identity_chain.rs and company_chain.rs: the tables of the
-- chains. A chain's rows stand by ascending block id. The database answers every query.
pub mod Chains
use e_bill.Prelude.{
  ◌+◌, ◌≡◌, ◌⊎◌, inl, inr, refl, String, Bool, true, ◌&&◌, not, Option, none, some, List, [], ◌∷◌,
  ◌++◌, Result, ok, err, panic, ◌>>=◌, map_err, if◌then◌else◌, ◌==◌, eqb, last,
}
use e_bill.Error.{BlockchainError}
use e_bill.Platform.{Platform}
use e_bill.Blockchain.{Block, verify, validate_hash, validate_with_previous}
use e_bill.Ledger.Data.{IdentityBlock, CompanyBlock}
use e_bill.Ledger.Env.{LedgerEnv}
use e_bill.Ledger.Identity.{identity_block}
use e_bill.Ledger.Company.{company_block, new_from_blocks}

-- The two tables' errors, and a transaction that throws.
pub data TableError : Type 0 where
  no_block add_block insert_failed blockchain : TableError

module _ (P : Platform) {B Op H : Type 0} (T : Block B Op H) where
  -- The transactions, on the rows of the new block's own chain.
  unfoldable pub create_next : Option B → B → List B → Result TableError (List B)
  create_next none block rows = err insert_failed
  create_next (some latest) block rows =
      if eqb (T.id latest + 1) (T.id block) && (T.hash latest == T.previous_hash block)
      then ok (rows ++ block ∷ [])
      else err insert_failed

  unfoldable pub create_first : List B → B → Result TableError (List B)
  create_first [] block = if eqb (T.id block) 1 then ok (block ∷ []) else err insert_failed
  create_first (b ∷ bs) block = err insert_failed

  -- `match self.get_latest_block()` of `add_block`, for a latest block that was read before.
  unfoldable pub insert_after : Option B → B → List B → Result TableError (List B)
  unfolding create_next create_first
  insert_after none block rows =
      if eqb (T.id block) 1 && verify P T block && validate_hash P T block
      then create_first rows block
      else err add_block
  insert_after (some latest_block) block rows =
      if not (validate_with_previous P T block latest_block)
      then err add_block
      else create_next (last rows) block rows

  unfoldable pub latest : List B → Result TableError B
  latest rows = elim (last rows) [ none ↦ err no_block | some block ↦ ok block ]

module _ (V : LedgerEnv) where
  open V use {platform}

  unfoldable pub add_identity_block :
      IdentityBlock → List IdentityBlock → Result TableError (List IdentityBlock)
  unfolding insert_after
  add_identity_block block rows = insert_after platform (identity_block V) (last rows) block rows

  -- The latest block is looked up by the id that is given, the transaction goes by the block's own.
  unfoldable pub add_company_block :
      String
      → CompanyBlock
      → (String → List CompanyBlock)
      → Result TableError (String → List CompanyBlock)
  unfolding insert_after
  add_company_block id block rows = do
    own ← insert_after platform (company_block V) (last (rows id)) block (rows block.company_id)
    ok (λ j. if block.company_id == j then own else rows j)

  unfoldable pub remove_company : String → (String → List CompanyBlock) → String → List CompanyBlock
  remove_company id rows = λ j. if id == j then [] else rows j

  unfoldable pub get_company_chain :
      String → (String → List CompanyBlock) → Result TableError (List CompanyBlock)
  get_company_chain id rows = map_err (λ e. blockchain) (new_from_blocks V (rows id))
